-- ===== src/RequestLimits/Messages.antt =====
-- app/request_limits/streams.py guarded_receive: the budget of a websocket's messages. Times are
-- microseconds.
use job_ping.Base.{
  ℕ, ◌+◌, ◌||◌, Option, none, some, List, [], ◌∷◌, ◌++◌, length, ltb, leb, if◌then◌else◌,
}

abbrev pub window : ℕ
window = 5000000

-- `while messages and messages[0] <= now - 5: messages.popleft()`
unfoldable pub drop_old : ℕ → List ℕ → List ℕ
drop_old now [] = []
drop_old now (t ∷ ts) = let rest = drop_old now ts in if leb (t + window) now then rest else t ∷ ts

-- The times after a message of a size, or none where it raises StreamAbuse.
unfoldable pub guarded_receive : ℕ → ℕ → List ℕ → Option (List ℕ)
unfolding drop_old
guarded_receive now size ts =
    let recent = drop_old now ts in
    if ltb 4096 size || leb 10 (length recent) then none else some (recent ++ (now ∷ []))

pub record Message : Type 0 where
  pub gap : ℕ
  pub size : ℕ

-- Messages one after the other, each some time after the one before, until one is refused.
unfoldable pub receive_all : ℕ → List Message → List ℕ → Option (List ℕ)
receive_all now [] ts = some ts
receive_all now (m ∷ ms) ts = elim (guarded_receive (now + m.gap) m.size ts) [
  | none ↦ none
  | some next ↦ receive_all (now + m.gap) ms next
]

unfoldable pub duration : List Message → ℕ
duration [] = 0
duration (m ∷ ms) = m.gap + duration ms

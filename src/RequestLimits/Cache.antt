-- ===== src/RequestLimits/Cache.antt =====
-- app/request_limits/cache.py PublicCache: a bounded, ordered map of responses, oldest use first. Header
-- names and bodies are bytes.
use job_ping.Base.{
  ℕ, ◌+◌, Bool, false, not, ◌&&◌, ◌||◌, Option, none, some, List, [], ◌∷◌, ◌++◌, map, length, keep,
  Text, codes, starts_with, ltb, leb, if◌then◌else◌, ◌==◌, nat_eq, list_eq,
}

pub record CachedResponse : Type 0 where
  pub expires : ℕ
  pub headers : List (Text × Text)
  pub body : Text

abbrev pub Entries : Type 0
Entries = List (Text × CachedResponse)

unfoldable pub lookup : Text → Entries → Option CachedResponse
lookup path [] = none
lookup path (e ∷ es) = let rest = lookup path es in if e.0 == path then some e.1 else rest

-- `self.entries.pop(path, None)`
unfoldable pub remove : Text → Entries → Entries
remove path = keep (λ e. not (e.0 == path))

-- `move_to_end` after an assignment or a read: the entry is the most recent.
unfoldable pub renew_entry : Text → CachedResponse → Entries → Entries
unfolding remove
renew_entry path value es = remove path es ++ ((path, value) ∷ [])

unfoldable pub get_found :
    ℕ → Text → Entries → Option CachedResponse → Option CachedResponse × Entries
unfolding remove renew_entry
get_found now path es none = (none, es)
get_found now path es (some value) =
    if leb value.expires now
    then (none, remove path es)
    else (some value, renew_entry path value es)

unfoldable pub get : ℕ → Text → Entries → Option CachedResponse × Entries
unfolding lookup get_found
get now path es = get_found now path es (lookup path es)

-- bytes.lower
unfoldable pub lower_byte : ℕ → ℕ
lower_byte c = if leb 65 c && leb c 90 then c + 32 else c

unfoldable pub has_cookie : List (Text × Text) → Bool
unfolding lower_byte
has_cookie [] = false
has_cookie (h ∷ hs) = map lower_byte h.0 == codes "set-cookie" || has_cookie hs

unfoldable pub is_cors : Text × Text → Bool
unfolding lower_byte
is_cors h = starts_with (codes "access-control-") (map lower_byte h.0)

unfoldable pub without_cors : List (Text × Text) → List (Text × Text)
without_cors = keep (λ h. not (is_cors h))

-- `while len(self.entries) > self.capacity: self.entries.popitem(last=False)`
unfoldable pub evict : ℕ → Entries → Entries
evict capacity [] = []
evict capacity (e ∷ es) =
    let rest = evict capacity es in if ltb capacity (length (e ∷ es)) then rest else e ∷ es

unfoldable pub put_response : ℕ → ℕ → ℕ → Text → List (Text × Text) → Text → Entries → Entries
unfolding has_cookie without_cors renew_entry evict
put_response seconds capacity now path headers body es =
    if seconds == 0 || ltb 262144 (length body)
    then es
    else if has_cookie headers
    then es
    else evict capacity (
        renew_entry path
          (record { expires = now + seconds; headers = without_cors headers; body = body }) es)

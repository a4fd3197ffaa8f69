-- ===== src/Notifications/SettingsPlaces.antt =====
-- That app/notifications/api.py put_settings keeps to the ten places on the shared mail account.
use job_ping.Base.{
  ℕ, ◌≤◌, ◌<◌, ◌≡◌, refl, ap, ◌∙◌, ◌⊎◌, inl, inr, Bool, true, false, not, ◌&&◌, List, [], ◌∷◌,
  arith, All, nat_eq, Bool-cases, Text, list_eq, ok,
}
use mathlib.Core.Path.{subst}
use job_ping.Notifications.Models.{DeliveryKind, Subscriber, Provider, Mailbox}
use job_ping.Notifications.Budget.{is_shared}
use job_ping.Notifications.Claims.{change_user, set_user}
use job_ping.Notifications.Cutoff.{Zone}
use job_ping.Notifications.Admitted.{Caller}
use job_ping.Notifications.Preferences.{
  cancel_unless, cancel_kind, Settings, has_place, others_placed, is_full, enrols, write_settings,
  settle_settings, with_settings,
}
use job_ping.Notifications.MatchAll.{match_backlog}
use job_ping.Notifications.MatchEnds.{match_backlog-subscribers}
use job_ping.Notifications.Rows.{
  placed, KeepsId, change-Apart, placed-change, placed-others, HaveProvider, All-of,
}
use job_ping.Notifications.Places.{HasPlaces, GivesNone, IsAdmitted}

with_settings-off :
    (zones : Text → Zone) (now : ℕ) (s : Settings)
    → enrols s ≡ false
    → GivesNone (with_settings zones now s)
unfolding with_settings has_place enrols
with_settings-off zones now s h u k = absurd (ground arith)

provider-cases : (p : Provider) → (p ≡ Provider.shared) ⊎ (p ≡ Provider.byok)
provider-cases Provider.shared = inl refl
provider-cases Provider.byok = inr refl

own-place :
    (zones : Text → Zone) (now : ℕ) (s : Settings) (u : Subscriber)
    → u.provider ≡ Provider.byok
    → ¬ (has_place (with_settings zones now s u) ≡ true)
unfolding with_settings has_place is_shared
own-place zones now s u e k =
    let own : is_shared u.provider ≡ false = ap is_shared e in ground (arith, own)

byok-none :
    (zones : Text → Zone) (now : ℕ) (s : Settings) (id : ℕ) (us : List Subscriber)
    → HaveProvider id Provider.byok us
    → All
        (λ (u : Subscriber).
          u.id ≡ id → has_place (with_settings zones now s u) ≡ true → has_place u ≡ true)
        us
unfolding with_settings has_place is_shared
byok-none zones now s id [] h = tt
byok-none zones now s id (u ∷ us) h =
    (λ e k. absurd (own-place zones now s u (h.0 e) k), byok-none zones now s id us h.1)

cancelled-subscribers :
    (b : Bool) (user : ℕ) (kind : DeliveryKind) (m : Mailbox)
    → (cancel_unless b user kind m).subscribers ≡ m.subscribers
unfolding cancel_unless cancel_kind
cancelled-subscribers true user kind m = refl
cancelled-subscribers false user kind m = refl

-- The subscribers after put_settings: the caller's row is changed.
written-subscribers :
    (zones : Text → Zone) (now : ℕ) (s : Settings) (user : ℕ) (m : Mailbox)
    → (write_settings zones now s user m).subscribers
      ≡ change_user user (with_settings zones now s) m.subscribers
unfolding write_settings set_user
written-subscribers zones now s user m =
    let matched = match_backlog now m in
    let alerted = cancel_unless s.alerts user DeliveryKind.alert matched in
    ap (change_user user (with_settings zones now s)) (
      cancelled-subscribers s.recap user DeliveryKind.recap alerted
      ∙ cancelled-subscribers s.alerts user DeliveryKind.alert matched
      ∙ match_backlog-subscribers now m)

settings-KeepsId :
    (zones : Text → Zone) (now : ℕ) (s : Settings) → KeepsId (with_settings zones now s)
unfolding with_settings
settings-KeepsId zones now s u = refl

free-places :
    (id : ℕ) (u : Subscriber) (m : Mailbox)
    → u.id ≡ id
    → u.provider ≡ Provider.shared
    → is_full u m ≡ false
    → others_placed id m.subscribers < 10
unfolding is_full is_shared
free-places id u m i e h =
    let same : others_placed u.id m.subscribers ≡ others_placed id m.subscribers =
      ap (λ (i : ℕ). others_placed i m.subscribers) i in
    let shared : is_shared u.provider ≡ true = ap is_shared e in ground (arith, same, shared)

settings-placed :
    (zones : Text → Zone) (now : ℕ) (s : Settings) (id : ℕ) (u : Subscriber) (m : Mailbox)
    → IsAdmitted id (ok u, m)
    → (enrols s && is_full u m) ≡ false
    → placed (change_user id (with_settings zones now s) m.subscribers) ≤ 10
settings-placed zones now s id u m (h, i, p) full =
    let f = with_settings zones now s in
    let k = settings-KeepsId zones now s in
    elim (Bool-cases (enrols s)) [
      | inl t ↦ elim (provider-cases u.provider) [
        | inl e ↦
            let others : others_placed id m.subscribers < 10 =
              free-places id u m i e (ground arith) in
            omega (arith, placed-others id f k m.subscribers h.one_row, others)
        | inr e ↦ omega (
          arith,
          placed-change id f k m.subscribers (
              byok-none zones now s id m.subscribers
                (subst (λ (q : Provider). HaveProvider id q m.subscribers) e p)),
          h.places,
        )
      ]
      | inr t ↦ omega (
        arith,
        placed-change id f k m.subscribers (
            All-of (λ (u : Subscriber). u.id ≡ id → has_place (f u) ≡ true → has_place u ≡ true)
              m.subscribers (λ u e. with_settings-off zones now s t u)),
        h.places,
      )
    ]

pub settle-HasPlaces :
    (zones : Text → Zone) (now : ℕ) (s : Settings) (who : Caller) (u : Subscriber) (m : Mailbox)
    → IsAdmitted who.uid (ok u, m)
    → HasPlaces (settle_settings zones now s who u m).1
unfolding settle_settings
settle-HasPlaces zones now s who u m h = elim (Bool-cases (enrols s && not who.verified)) [
  | inl t ↦ rw t (h.0)
  | inr t ↦ elim (Bool-cases (enrols s && u.suppressed)) [
    | inl k ↦ rw (t, k) (h.0)
    | inr k ↦ elim (Bool-cases (enrols s && is_full u m)) [
      | inl l ↦ rw (t, k, l) (h.0)
      | inr l ↦
          rw (t, k, l)
            (record {
              one_row = rw (written-subscribers zones now s who.uid m) (
                  change-Apart who.uid (with_settings zones now s) (settings-KeepsId zones now s)
                    m.subscribers h.0.one_row);
              places =
                  rw (written-subscribers zones now s who.uid m)
                    (settings-placed zones now s who.uid u m h l);
            })
    ]
  ]
]

-- ===== src/RequestLimits/CacheSoundness.antt =====
-- What app/request_limits/cache.py keeps: a bound on its size, and responses that are anyone's.
use mathlib.Core.Path.{subst}
use job_ping.RequestLimits.Cache.{
  CachedResponse, Entries, lookup, remove, renew_entry, get, has_cookie, is_cors, without_cors,
  evict, put_response, get_found,
}
use job_ping.Base.{
  ℕ, suc, ◌≤◌, ◌<◌, ◌≡◌, inl, inr, false, not, ◌||◌, some, List, [], ◌∷◌, arith, length,
  length-append, length-keep-le, All, All-append, All-keep, Text, ltb, leb, Bool-cases, ◌==◌,
  nat_eq, list_eq, refl, ◌∙◌, Option, none,
}

-- A response without a cookie and without the headers of another request's origin.
pub record IsPublic (v : CachedResponse) : Type 0 where
  pub no_cookie : has_cookie v.headers ≡ false
  pub no_cors : All (λ h. is_cors h ≡ false) v.headers

abbrev pub AllPublic : Entries → Type 0
AllPublic = All (λ e. IsPublic e.1)

-- A cache within its capacity that holds such responses.
pub record IsSound (capacity : ℕ) (es : Entries) : Type 0 where
  pub bounded : length es ≤ capacity
  pub all_public : AllPublic es

length-evict : (capacity : ℕ) (es : Entries) → length (evict capacity es) ≤ capacity
unfolding evict
length-evict capacity [] = omega arith
length-evict capacity (e ∷ es) = ground (arith, length-evict capacity es)

evict-AllPublic : (capacity : ℕ) (es : Entries) → AllPublic es → AllPublic (evict capacity es)
unfolding evict
evict-AllPublic capacity [] h = h
evict-AllPublic capacity (e ∷ es) h = ground (arith, evict-AllPublic capacity es)

has_cookie-without_cors :
    (hs : List (Text × Text)) → has_cookie hs ≡ false → has_cookie (without_cors hs) ≡ false
unfolding has_cookie without_cors
has_cookie-without_cors [] h = h
has_cookie-without_cors (x ∷ hs) h = ground (arith, has_cookie-without_cors hs)

without_cors-All : (hs : List (Text × Text)) → All (λ h. is_cors h ≡ false) (without_cors hs)
unfolding without_cors
without_cors-All [] = tt
without_cors-All (x ∷ hs) = ground (arith, without_cors-All hs)

lookup-IsPublic :
    (path : Text) (es : Entries) (v : CachedResponse)
    → AllPublic es
    → lookup path es ≡ some v
    → IsPublic v
unfolding lookup
lookup-IsPublic path [] v h e = absurd (ground arith)
lookup-IsPublic path (x ∷ es) v h e = elim (Bool-cases (x.0 == path)) [
  | inl same ↦ subst IsPublic (ground arith) h.0
  | inr other ↦ lookup-IsPublic path es v h.1 (ground arith)
]

length-remove : (path : Text) (es : Entries) → length (remove path es) ≤ length es
unfolding remove
length-remove path es = length-keep-le (λ e. not (e.0 == path)) es

-- An entry that is found makes room for its renewal.
length-remove-lt :
    (path : Text) (es : Entries) (v : CachedResponse)
    → lookup path es ≡ some v
    → length (remove path es) < length es
unfolding lookup remove
length-remove-lt path [] v e = absurd (ground arith)
length-remove-lt path (x ∷ es) v e =
    ground (arith, length-remove-lt path es v, length-keep-le (λ y. not (y.0 == path)) es)

remove-AllPublic : (path : Text) (es : Entries) → AllPublic es → AllPublic (remove path es)
unfolding remove
remove-AllPublic path es h = All-keep (λ e. IsPublic e.1) (λ e. not (e.0 == path)) es h

renew-AllPublic :
    (path : Text) (v : CachedResponse) (es : Entries)
    → IsPublic v
    → AllPublic es
    → AllPublic (renew_entry path v es)
unfolding renew_entry
renew-AllPublic path v es p h =
    All-append (λ e. IsPublic e.1) (remove path es) ((path, v) ∷ []) (remove-AllPublic path es h)
      (p, tt)

length-renew :
    (path : Text) (v : CachedResponse) (es : Entries)
    → length (renew_entry path v es) ≡ suc (length (remove path es))
unfolding renew_entry
length-renew path v es = omega (arith, length-append (remove path es) ((path, v) ∷ []))

-- A cache that is within its capacity and holds no response with a cookie or a CORS header is so after
-- storing any response.
pub put_response-IsSound :
    (seconds capacity now : ℕ) (path : Text) (headers : List (Text × Text)) (body : Text)
    (es : Entries)
    → IsSound capacity es
    → IsSound capacity (put_response seconds capacity now path headers body es)
unfolding put_response
put_response-IsSound seconds capacity now path headers body es s =
    elim (Bool-cases (seconds == 0 || ltb 262144 (length body))) [
      | inl skip ↦ rw skip s
      | inr room ↦ elim (Bool-cases (has_cookie headers)) [
        | inl cookie ↦ rw (room, cookie) s
        | inr none_set ↦
            rw (room, none_set)
              (record {
                bounded = length-evict capacity _;
                all_public = evict-AllPublic capacity _ (
                    renew-AllPublic path _ es
                      (record {
                        no_cookie = has_cookie-without_cors headers none_set;
                        no_cors = without_cors-All headers;
                      })
                      s.all_public);
              })
      ]
    ]

get_found-IsSound :
    (capacity now : ℕ) (path : Text) (es : Entries) (found : Option CachedResponse)
    → IsSound capacity es
    → lookup path es ≡ found
    → IsSound capacity (get_found now path es found).1
      × ((v : CachedResponse)
          → (get_found now path es found).0 ≡ some v
          → (now < v.expires) × IsPublic v)
unfolding get_found
get_found-IsSound capacity now path es none s here = (s, λ v e. absurd (ground arith))
get_found-IsSound capacity now path es (some found) s here =
    elim (Bool-cases (leb found.expires now)) [
      | inl over ↦ rw over (
        record {
          bounded = omega (arith, length-remove path es, s.bounded);
          all_public = remove-AllPublic path es s.all_public;
        },
        λ v e. absurd (ground arith),
      )
      | inr fresh ↦ rw fresh (
        record {
          bounded =
              omega
                (arith, length-renew path found es, length-remove-lt path es found here, s.bounded);
          all_public =
              renew-AllPublic path found es (lookup-IsPublic path es found s.all_public here)
                s.all_public;
        },
        λ v e. (ground arith, lookup-IsPublic path es v s.all_public (here ∙ e)),
      )
    ]

-- In such a cache a hit is not over yet and has neither a cookie nor a CORS header, and the cache stays
-- so.
pub get-IsSound :
    (capacity now : ℕ) (path : Text) (es : Entries)
    → IsSound capacity es
    → IsSound capacity (get now path es).1
      × ((v : CachedResponse) → (get now path es).0 ≡ some v → (now < v.expires) × IsPublic v)
unfolding get
get-IsSound capacity now path es s = get_found-IsSound capacity now path es (lookup path es) s refl

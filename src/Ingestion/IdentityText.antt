-- ===== src/Ingestion/IdentityText.antt =====
-- app/services/hasher.py: the texts whose SHA-256 digests are the base hash and the content hash of a job. Each
-- field stands behind its length and a colon.
use job_ping.Base.{
  ℕ, zero, suc, ◌+◌, ◌/◌, ◌%◌, Bool, true, false, List, [], ◌∷◌, ◌++◌, length, Text, codes, ltb,
  if◌then◌else◌,
}

-- `str(n)` of a length, in at most so many digits.
unfoldable pub digits : ℕ → ℕ → Text
digits zero n = []
digits (suc k) n = (if ltb n 10 then [] else digits k (n / 10)) ++ ((48 + n % 10) ∷ [])

unfoldable pub decimal : ℕ → Text
unfolding digits
decimal n = digits (n + 1) n

-- `f"{len(field)}:{field}"`
unfoldable pub prefixed : Text → Text
unfolding decimal
prefixed field = decimal (length field) ++ (58 ∷ field)

-- `"".join(...)` over the fields
unfoldable pub composed : List Text → Text
unfolding prefixed
composed [] = []
composed (f ∷ fs) = prefixed f ++ composed fs

-- generate_base_hash, where the normal form of a field and the digest are arguments.
unfoldable pub generate_base_hash : (Text → Text) → (Text → Text) → Text → Text → Text
unfolding composed
generate_base_hash normalize sha256 company title =
    sha256 (composed (normalize company ∷ normalize title ∷ []))

unfoldable pub closed_text : Bool → Text
closed_text true = codes "true"
closed_text false = codes "false"

-- generate_content_hash, after the canonical forms of its fields.
unfoldable pub generate_content_hash : (Text → Text) → Text → Text → Text → Bool → Text
unfolding composed closed_text
generate_content_hash sha256 base_hash apply_url location is_closed =
    sha256 (composed (base_hash ∷ apply_url ∷ location ∷ closed_text is_closed ∷ []))

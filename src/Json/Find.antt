-- ===== src/Json/Find.antt =====
-- A lookup in an object returns, stays within a text that does not end in a backslash, and finds
-- what is there.
use yllm.Base.Outcome.{Outcome, done, hang, fault}
use yllm.Base.Text.{Bytes, equal}
use yllm.Base.{◌≡◌, true, false, Option, none, some, List, [], ◌∷◌, ◌++◌, All}
use yllm.Json.Object.{is_plain}
use yllm.Json.{JsonVal}
use yllm.Json.Within.{IsFound}

-- Fields of plain strings, none of them with the key.
abbrev pub AreOthers : Bytes → List (Bytes × Bytes) → Type 0
AreOthers key fs =
    All (λ f. (is_plain f.0 ≡ true) × (is_plain f.1 ≡ true) × (equal f.0 key ≡ false)) fs

-- These fields, in front of what follows.
abbrev pub in_front : List (Bytes × Bytes) → Bytes → Bytes
in_front [] p = p
in_front ((k, w) ∷ fs) p = b'"' ∷ (k ++ b'"' ∷ b':' ∷ b'"' ∷ (w ++ b'"' ∷ b',' ∷ in_front fs p))

-- The text has a field with the key, behind such fields.
abbrev pub HasField : Bytes → Bytes → Type 0
HasField key text =
    (fs : List (Bytes × Bytes)) × (t : Bytes) × AreOthers key fs
    × (text ≡ b'{' ∷ in_front fs (b'"' ∷ (key ++ b'"' ∷ b':' ∷ t)))

-- A lookup returns, with a value that is found in the text, or with nothing, where the text has no
-- such field.
abbrev pub Ends : Bytes → Bytes → Outcome (Option JsonVal) → Type 0
Ends key text (done none) = ¬ HasField key text
Ends key text (done (some v)) = IsFound key text v
Ends key text hang = ⊥
Ends key text fault = ⊥

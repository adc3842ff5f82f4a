-- ===== src/Tokenizer/Specials.antt =====
-- The tokens that are matched whole: `k_qwen_specials` and `special_token_id` of
-- inference/core/tokenizer.c, and the search of `vocab_encode_merges` for the name behind an id.
use Prim.Native.Nat.{Ordering}
use yllm.Base.{
  ℕ, Bool, true, false, ◌&&◌, Option, none, some, List, [], ◌∷◌, ◌==◌, ltb, if◌then◌else◌, length,
}
use yllm.Base.Text.{Bytes, codes}
use yllm.Tokenizer.Lookup.{strncmp, vocab_bsearch_sorted}
use yllm.Tokenizer.Types.{Vocab}

abbrev pub k_qwen_specials : List Bytes
k_qwen_specials =
    codes "<|im_start|>"
    ∷ codes "<|im_end|>"
    ∷ codes "<|endoftext|>"
    ∷ codes "<|vision_start|>"
    ∷ codes "<|vision_end|>"
    ∷ codes "<|image_pad|>"
    ∷ codes "<image>"
    ∷ codes "</image>"
    ∷ codes "<slice>"
    ∷ codes "</slice>"
    ∷ codes "<think>"
    ∷ codes "</think>"
    ∷ codes "<|extra_0|>"
    ∷ codes "<|extra_1|>"
    ∷ codes "<|extra_2|>"
    ∷ codes "<|extra_3|>"
    ∷ []

-- `strncmp(text, name, strlen(name)) == 0`
unfoldable pub begins_with : Bytes → Bytes → Bool
unfolding strncmp
begins_with name text = elim (strncmp (length name) text name) [ Ordering.eq ↦ true | _ ↦ false ]

-- The loop of `special_token_id`, with the best id and its length so far.
unfoldable pub special_id_from : Vocab → Bytes → List Bytes → Option ℕ → ℕ → Option ℕ
special_id_from v text [] best len = best
special_id_from v text (name ∷ names) best len =
    let other = special_id_from v text names best len in
    if ltb len (length name) && begins_with name text
    then elim (vocab_bsearch_sorted v name) [
      | some id ↦ special_id_from v text names (some id) (length name)
      | none ↦ other
    ]
    else other

unfoldable pub special_token_id : Vocab → Bytes → Option ℕ
unfolding special_id_from
special_token_id v text = special_id_from v text k_qwen_specials none 0

-- The loop of the encoder that looks up the length of the special token `sid`; `none` for a null
-- `sp`, and `nsp` is 0 until a name is found.
unfoldable pub special_len_from : Vocab → Bytes → ℕ → List Bytes → Option ℕ → ℕ → Option ℕ
special_len_from v text sid [] sp nsp = sp
special_len_from v text sid (name ∷ names) sp nsp =
    let other = special_len_from v text sid names sp nsp in
    if ltb nsp (length name) && begins_with name text
    then elim (vocab_bsearch_sorted v name) [
      | some id ↦
          if id == sid
          then special_len_from v text sid names (some (length name)) (length name)
          else other
      | none ↦ other
    ]
    else other

unfoldable pub special_len : Vocab → Bytes → ℕ → Option ℕ
unfolding special_len_from
special_len v text sid = special_len_from v text sid k_qwen_specials none 0

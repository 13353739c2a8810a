-- ===== src/Util/Alias.antt =====
-- awex/util/common.py: `_is_allowed_infer_only_alias`.
use text.Mathlib.Text.{◌==◌ as str_eq}
use awex.Prelude.{String, Bool, false, ◌&&◌, ◌||◌, List, [], ◌∷◌, if◌then◌else◌}

-- `key in keys`
abbrev pub has_name : String → List String → Bool
has_name key [] = false
has_name key (k ∷ keys) = str_eq key k || has_name key keys

unfoldable pub is_allowed_infer_only_alias : String → List String → List String → Bool
is_allowed_infer_only_alias extra_key infer_keys train_keys =
    if str_eq extra_key "lm_head.weight"
    then has_name "model.embed_tokens.weight" infer_keys
      && has_name "model.embed_tokens.weight" train_keys
    else if str_eq extra_key "model.embed_tokens.weight"
    then has_name "lm_head.weight" infer_keys && has_name "lm_head.weight" train_keys
    else false

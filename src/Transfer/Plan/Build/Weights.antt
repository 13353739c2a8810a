-- ===== src/Transfer/Plan/Build/Weights.antt =====
-- awex/transfer/transfer_plan.py: `build_weights_mapping_operations`.
use Prim.Native.Nat.{Ordering}
use text.Mathlib.Text.{◌==◌ as str_eq}
use awex.Prelude.{
  ℕ, String, Bool, true, false, not, ◌||◌, Option, none, some, List, [], ◌∷◌, filter, if◌then◌else◌,
}
use awex.Prelude.Lex.{codes, compare_tuple}
use awex.Prelude.Sort.{sort}
use awex.Prelude.Outcome
use awex.Prelude.Outcome.{Outcome, ok, err, ◌>>=◌, ◌>>◌, raise_if, or_raise}
use awex.Util.Alias.{has_name, is_allowed_infer_only_alias}
use awex.Meta.Weight.{ParameterMeta}
use awex.Transfer.Plan.Defs.{
  CommunicationOperation, PlanError, TransferPlanBuilder, key_mismatch, index_error,
}
use awex.Transfer.Plan.Build.Shards.{is_empty}
use awex.Transfer.Plan.Build.Parameter.{build_parameter_communication_plan}

-- `{meta.name: meta for meta in metas}`: a later entry of a name replaces an earlier one in place.
abbrev pub MetaDict : Type 0
MetaDict = List (String × ParameterMeta)

abbrev pub put_meta : ParameterMeta → MetaDict → MetaDict
put_meta meta [] = (meta.name, meta) ∷ []
put_meta meta ((name, old) ∷ rest) =
    let later = put_meta meta rest in
    if str_eq name meta.name then (name, meta) ∷ rest else (name, old) ∷ later

abbrev pub meta_dict_from : MetaDict → List ParameterMeta → MetaDict
meta_dict_from dict [] = dict
meta_dict_from dict (meta ∷ metas) = meta_dict_from (put_meta meta dict) metas

unfoldable pub meta_dict : List ParameterMeta → MetaDict
meta_dict = meta_dict_from []

abbrev pub lookup_meta : String → MetaDict → Option ParameterMeta
lookup_meta key [] = none
lookup_meta key ((name, meta) ∷ rest) = if str_eq name key then some meta else lookup_meta key rest

abbrev pub keys : MetaDict → List String
keys [] = []
keys ((name, _) ∷ rest) = name ∷ keys rest

abbrev pub name_le : String → String → Bool
name_le a b = elim (compare_tuple (codes a) (codes b)) [ Ordering.gt ↦ false | _ ↦ true ]

-- Whether the two key sets break the contract: every training key is an inference key, and an
-- inference key that is no training key is a known alias (none at all in the strict mode).
unfoldable pub keys_mismatch : Bool → List String → List String → Bool
keys_mismatch strict infer_keys train_keys =
    let missing_on_infer = filter (λ key. not (has_name key infer_keys)) train_keys in
    let extra_on_infer = filter (λ key. not (has_name key train_keys)) infer_keys in
    let unsupported_extra_on_infer =
      filter (λ key. not (is_allowed_infer_only_alias key infer_keys train_keys)) extra_on_infer in
    if strict
    then not (is_empty missing_on_infer) || not (is_empty extra_on_infer)
    else not (is_empty missing_on_infer) || not (is_empty unsupported_extra_on_infer)

unfoldable pub common_params : List String → List String → List String
common_params infer_keys train_keys =
    sort name_le (filter (λ key. has_name key train_keys) infer_keys)

-- The body of the loop over the common names. The lookups find what the names were taken from.
unfoldable pub named_plan :
    TransferPlanBuilder
    → Option ℕ
    → MetaDict
    → MetaDict
    → String
    → Outcome PlanError (List CommunicationOperation)
named_plan builder wanted inference_dict training_dict param_name = do
  inference_meta ← or_raise (lookup_meta param_name inference_dict) index_error
  training_meta ← or_raise (lookup_meta param_name training_dict) index_error
  build_parameter_communication_plan builder wanted inference_meta training_meta

unfoldable pub build_weights_mapping_operations :
    TransferPlanBuilder
    → List ParameterMeta
    → List ParameterMeta
    → Option ℕ
    → Outcome PlanError (List CommunicationOperation)
build_weights_mapping_operations builder inference_weights_meta training_weights_meta wanted =
    let inference_dict = meta_dict inference_weights_meta in
    let training_dict = meta_dict training_weights_meta in
    let infer_keys = keys inference_dict in
    let train_keys = keys training_dict in
    if is_empty inference_weights_meta || is_empty training_weights_meta then ok [] else do
      raise_if (keys_mismatch builder.strict_param_key_match infer_keys train_keys) key_mismatch
      Outcome.flat_map (named_plan builder wanted inference_dict training_dict)
          (common_params infer_keys train_keys)

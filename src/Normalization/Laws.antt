-- ===== src/Normalization/Laws.antt =====
-- What src/request_normalization.rs changes in the body of a request to /responses, and what not.
use codaze.Prelude.{
  String, Bool, true, false, not, ◌&&◌, Option, none, some, List, [], ◌∷◌, ◌++◌, ◌≡◌, refl, ap, ◌∙◌,
  arith, if◌then◌else◌, or_else, contains, ◌==◌, eq_iff, Bool-cases, Option-cases, inl, inr,
}
use mathlib.Core.Path.{subst}
use codaze.Prelude.Members.{contains-differs, contains-differs_in}
use codaze.Config.{FingerprintMode, normalize, passthrough}
use codaze.Models.{ModelsSnapshot, default_parallel_tool_calls}
use codaze.Json.{
  Value, null, bool, string, Fields, get_field, or_insert, change_field, remove_field, as_str,
}
use codaze.Json.Lookup.{
  HasDistinct, get_field-set_field, get_field-or_insert, get_field-change_field,
  get_field-remove_field, remove_field-HasDistinct,
}
use codaze.Normalization.{
  unsupported, remove_all, keep_priority, is_priority, normalize_non_codex_responses_compatibility,
  message_of, normalize_string_input_to_message, normalize_instructions_field,
  normalize_responses_fields, compatible, with_defaults, normalize_builtin_tool_aliases,
  normalize_tool_choice_aliases, default_tool_calls,
}

remove_all-HasDistinct :
    (names : List String) (fs : Fields) → HasDistinct fs → HasDistinct (remove_all names fs)
unfolding remove_all
remove_all-HasDistinct [] fs d = d
remove_all-HasDistinct (name ∷ names) fs d =
    remove_all-HasDistinct names (remove_field name fs) (remove_field-HasDistinct name fs d)

get_field-remove_all :
    (j : String) (names : List String) (fs : Fields)
    → HasDistinct fs
    → get_field j (remove_all names fs) ≡ (if contains names j then none else get_field j fs)
unfolding remove_all
get_field-remove_all j [] fs d = refl
get_field-remove_all j (name ∷ names) fs d =
    let later =
      get_field-remove_all j names (remove_field name fs) (remove_field-HasDistinct name fs d) in
    let gone = get_field-remove_field j name fs d in ground arith

get_field-keep_priority :
    (j : String) (fs : Fields)
    → HasDistinct fs
    → get_field j (keep_priority fs) ≡ (
        if "service_tier" == j && not (is_priority (get_field "service_tier" fs))
        then none
        else get_field j fs)
get_field-keep_priority j fs d =
    let gone = get_field-remove_field j "service_tier" fs d in ground arith

get_field-compatibility :
    (j : String) (fs : Fields)
    → HasDistinct fs
    → ("tools" == j) ≡ false
    → ("tool_choice" == j) ≡ false
    → ("service_tier" == j) ≡ false
    → get_field j (normalize_non_codex_responses_compatibility fs)
      ≡ (if contains unsupported j then none else get_field j fs)
unfolding normalize_non_codex_responses_compatibility
get_field-compatibility j fs d tools choice tier =
    let removed = remove_all unsupported fs in
    let kept = keep_priority removed in
    let e = get_field-remove_all j unsupported fs d in
    let e' = get_field-keep_priority j removed (remove_all-HasDistinct unsupported fs d) in
    let f = get_field-change_field j "tools" normalize_builtin_tool_aliases kept in
    let g =
      get_field-change_field j "tool_choice" normalize_tool_choice_aliases
        (change_field "tools" normalize_builtin_tool_aliases kept) in
    (rw choice at g) ∙ (rw tools at f) ∙ (rw tier at e') ∙ e

get_field-input :
    (j : String) (fs : Fields)
    → ("input" == j) ≡ false
    → get_field j (normalize_string_input_to_message fs) ≡ get_field j fs
unfolding normalize_string_input_to_message
get_field-input j fs differ = elim (Option-cases (get_field "input" fs)) [
  | inl e ↦ rw (e, normalize_string_input_to_message) refl
  | inr (v, e) ↦ elim (Option-cases (as_str v)) [
    | inl f ↦ rw (e, f, normalize_string_input_to_message) refl
    | inr (text, f) ↦
        let set = get_field-set_field j "input" (message_of text) fs in
        rw (e, f, normalize_string_input_to_message) (rw differ at set)
  ]
]

-- What the mode `normalize` makes of the instructions.
abbrev pub instructions_of : Option Value → Value
instructions_of none = string ""
instructions_of (some null) = string ""
instructions_of (some v) = v

get_field-instructions :
    (j : String) (fs : Fields)
    → get_field j (normalize_instructions_field fs) ≡ (
        if "instructions" == j
        then some (instructions_of (get_field "instructions" fs))
        else get_field j fs)
unfolding normalize_instructions_field
get_field-instructions j fs =
    let set = get_field-set_field j "instructions" (string "") fs in
    let change = get_field-change_field j "instructions" (λ v. string "") fs in
    ground (arith, eq_iff "instructions" j)

-- The fields that a request to /responses may have changed.
abbrev pub touched : List String
touched =
    unsupported
    ++ ("service_tier" ∷ "tools" ∷ "tool_choice" ∷ "input" ∷ "instructions" ∷ "store"
        ∷ "parallel_tool_calls" ∷ [])

abbrev WithDefaultsAt : Option ModelsSnapshot → Fields → String → Type 0
WithDefaultsAt snapshot fs j = get_field j (with_defaults snapshot fs) ≡ (
    if "parallel_tool_calls" == j
    then or_else (get_field j fs) (some (default_tool_calls snapshot fs))
    else if "store" == j
    then or_else (get_field j fs) (some (bool false))
    else get_field j fs)

get_field-with_defaults :
    (j : String) (snapshot : Option ModelsSnapshot) (fs : Fields) → WithDefaultsAt snapshot fs j
unfolding with_defaults
get_field-with_defaults j snapshot fs =
    let v = default_tool_calls snapshot fs in
    let stored = or_insert "store" (bool false) fs in
    let calls = get_field-or_insert j "parallel_tool_calls" v stored in
    let store = get_field-or_insert j "store" (bool false) fs in
    elim (Bool-cases ("parallel_tool_calls" == j)) [
      | inl same ↦
          let e : "parallel_tool_calls" ≡ j = (eq_iff "parallel_tool_calls" j).0 same in
          subst (WithDefaultsAt snapshot fs) e (
            get_field-or_insert "parallel_tool_calls" "parallel_tool_calls" v stored
            ∙ ap (λ f. or_else f (some v))
                (get_field-or_insert "parallel_tool_calls" "store" (bool false) fs))
      | inr differ ↦ rw differ (rw differ at calls ∙ store)
    ]

-- A field that the mode `normalize` has no say in.
get_field-normalize :
    (j : String) (snapshot : Option ModelsSnapshot) (fs : Fields)
    → ("parallel_tool_calls" == j) ≡ false
    → ("store" == j) ≡ false
    → ("instructions" == j) ≡ false
    → get_field j (with_defaults snapshot (normalize_instructions_field fs)) ≡ get_field j fs
get_field-normalize j snapshot fs calls store instructions =
    let d = get_field-with_defaults j snapshot (normalize_instructions_field fs) in
    let i = get_field-instructions j fs in (rw (calls, store) at d) ∙ (rw instructions at i)

contains-supported : (j : String) → contains touched j ≡ false → contains unsupported j ≡ false
contains-supported j other = elim (Bool-cases (contains unsupported j)) [
  | inl member ↦ absurd (ground arith)
  | inr out ↦ out
]

-- A field of which the changes for clients that are not Codex have no say.
get_field-compatible :
    (j : String) (codex_originator : Bool) (fs : Fields)
    → HasDistinct fs
    → ("input" == j) ≡ false
    → ("tools" == j) ≡ false
    → ("tool_choice" == j) ≡ false
    → ("service_tier" == j) ≡ false
    → contains unsupported j ≡ false
    → get_field j (compatible codex_originator fs) ≡ get_field j fs
unfolding compatible
get_field-compatible j true fs d input tools choice tier supported = refl
get_field-compatible j false fs d input tools choice tier supported =
    let plain = normalize_non_codex_responses_compatibility fs in
    get_field-input j plain input ∙ get_field-compatibility j fs d tools choice tier ∙ rw supported

get_field-compatible_other :
    (j : String) (codex_originator : Bool) (fs : Fields)
    → HasDistinct fs
    → contains touched j ≡ false
    → get_field j (compatible codex_originator fs) ≡ get_field j fs
get_field-compatible_other j codex_originator fs d other =
    let differs = λ (name : String) (member : contains touched name ≡ true).
      contains-differs_in touched name j other member in
    get_field-compatible j codex_originator fs d (differs "input" refl) (differs "tools" refl)
      (differs "tool_choice" refl) (differs "service_tier" refl) (contains-supported j other)

-- In both modes, for a client that is Codex or not, every other field of a body whose names are
-- distinct stays as it is.
pub normalize_responses_fields_keeps :
    (mode : FingerprintMode) (codex_originator : Bool) (snapshot : Option ModelsSnapshot)
    (fs : Fields) (j : String)
    → HasDistinct fs
    → contains touched j ≡ false
    → get_field j (normalize_responses_fields mode codex_originator snapshot fs) ≡ get_field j fs
unfolding normalize_responses_fields
normalize_responses_fields_keeps passthrough codex_originator snapshot fs j d other =
    get_field-compatible_other j codex_originator fs d other
normalize_responses_fields_keeps normalize codex_originator snapshot fs j d other =
    let differs = λ (name : String) (member : contains touched name ≡ true).
      contains-differs_in touched name j other member in
    get_field-normalize j snapshot (compatible codex_originator fs)
      (differs "parallel_tool_calls" refl) (differs "store" refl) (differs "instructions" refl)
    ∙ get_field-compatible_other j codex_originator fs d other

drops-compatible :
    (fs : Fields) (j : String)
    → HasDistinct fs
    → contains unsupported j ≡ true
    → get_field j (compatible false fs) ≡ none
unfolding compatible
drops-compatible fs j d gone =
    let plain = normalize_non_codex_responses_compatibility fs in
    let differs = λ (name : String) (out : contains unsupported name ≡ false).
      contains-differs unsupported name j out gone in
    get_field-input j plain (differs "input" refl)
    ∙ get_field-compatibility j fs d (differs "tools" refl) (differs "tool_choice" refl)
        (differs "service_tier" refl)
    ∙ rw gone

-- In both modes, the parameters that the upstream does not take are gone from the body of a client
-- that is not Codex, if its names are distinct.
pub normalize_responses_fields_drops :
    (mode : FingerprintMode) (snapshot : Option ModelsSnapshot) (fs : Fields) (j : String)
    → HasDistinct fs
    → contains unsupported j ≡ true
    → get_field j (normalize_responses_fields mode false snapshot fs) ≡ none
unfolding normalize_responses_fields
normalize_responses_fields_drops passthrough snapshot fs j d gone = drops-compatible fs j d gone
normalize_responses_fields_drops normalize snapshot fs j d gone =
    let differs = λ (name : String) (out : contains unsupported name ≡ false).
      contains-differs unsupported name j out gone in
    get_field-normalize j snapshot (compatible false fs) (differs "parallel_tool_calls" refl)
      (differs "store" refl) (differs "instructions" refl)
    ∙ drops-compatible fs j d gone

-- In the mode `normalize`, whatever the client, the instructions, `store` and `parallel_tool_calls`
-- of a body whose names are distinct are those that the client sent, where it sent any, but that
-- instructions that are null are an empty text. Where it sent none, the instructions are an empty
-- text, `store` is false, and `parallel_tool_calls` is what `default_parallel_tool_calls` answers
-- for the model that the client named.
pub normalize_responses_fields_defaults :
    (codex_originator : Bool) (snapshot : Option ModelsSnapshot) (fs : Fields)
    → HasDistinct fs
    → let out = normalize_responses_fields normalize codex_originator snapshot fs in
      (get_field "instructions" out ≡ some (instructions_of (get_field "instructions" fs)))
      × (get_field "store" out ≡ or_else (get_field "store" fs) (some (bool false)))
      × (get_field "parallel_tool_calls" out
          ≡ or_else
              (get_field "parallel_tool_calls" fs)
              (some (bool (default_parallel_tool_calls (get_field "model" fs) snapshot))))
unfolding normalize_responses_fields
normalize_responses_fields_defaults codex_originator snapshot fs d =
    let body = compatible codex_originator fs in
    let w = normalize_instructions_field body in
    let instructions =
      get_field-compatible "instructions" codex_originator fs d refl refl refl refl refl in
    let store = get_field-compatible "store" codex_originator fs d refl refl refl refl refl in
    let calls =
      get_field-compatible "parallel_tool_calls" codex_originator fs d refl refl refl refl refl in
    let model =
      get_field-instructions "model" body
      ∙ get_field-compatible "model" codex_originator fs d refl refl refl refl refl in
    (
      get_field-with_defaults "instructions" snapshot w
          ∙ get_field-instructions "instructions" body
          ∙ ap (λ f. some (instructions_of f)) instructions,
      get_field-with_defaults "store" snapshot w
          ∙ ap (λ f. or_else f (some (bool false))) (get_field-instructions "store" body ∙ store),
      get_field-with_defaults "parallel_tool_calls" snapshot w
          ∙ ap (λ f. or_else f (some (default_tool_calls snapshot w)))
              (get_field-instructions "parallel_tool_calls" body ∙ calls)
          ∙ ap
              (λ f.
                or_else (get_field "parallel_tool_calls" fs)
                  (some (bool (default_parallel_tool_calls f snapshot))))
              model,
    )

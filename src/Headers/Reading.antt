-- ===== src/Headers/Reading.antt =====
-- How a header object reads the fields of its buffer into its map.
use atscppapi.Common.{
  suc_not_zero, ℕ, zero, suc, ◌<◌, Bytes, ◌≡◌, refl, sym, ap, ◌∙◌, subst, ◌++◌, ◌==◌, Option, none,
  some, List, [], ◌∷◌, ltb, length, arith, if◌then◌else◌, append_assoc, append-nil,
}
use mathlib.Core.Option
use mathlib.Core.Path.{fun_ext}
use atscppapi.Comparator.{name_less}
use atscppapi.StdMap.{insert, modify}
use atscppapi.StdMap.Multi.{append_at}
use atscppapi.Mime.{MimeApi}
use atscppapi.Headers.State.{NameValuesMap}
use atscppapi.Headers.Fields.{extract_values, extract_header_field_values, add_field, read_fields}

-- A field of a buffer: where it is, its name unless that is null, and its values.
pub record Field (ts : MimeApi) : Type 0 where
  pub field_loc : ts.MLoc
  pub name : Option Bytes
  pub values : List Bytes

-- A field without values counts as one with an empty value.
abbrev pub values_read : {ts : MimeApi} → Field ts → List Bytes
values_read f = elim f.values [ [] ↦ [] ∷ [] | v ∷ vs ↦ v ∷ vs ]

module _ (ts : MimeApi) (buf : ts.MBuffer) (loc : ts.MLoc) where
  abbrev pub HasValues : ts.World → ts.MLoc → ℕ → List Bytes → Type 0
  HasValues w field i [] = Unit
  HasValues w field i (v ∷ vs) =
      (ts.field_value_get w buf loc field i ≡ some v) × HasValues w field (suc i) vs

  -- What Traffic Server's getters say of a field.
  pub record IsField (w : ts.World) (f : Field ts) : Type 0 where
    pub named : ts.field_name_get w buf loc f.field_loc ≡ f.name
    pub counted : ts.field_values_count w buf loc f.field_loc ≡ length f.values
    pub valued : HasValues w f.field_loc 0 f.values

  -- From a field on, the fields of the buffer are these.
  abbrev pub HasFields : ts.World → Option ts.MLoc → List (Field ts) → Type 0
  HasFields w from [] = from ≡ none
  HasFields w from (f ∷ fs) =
      (from ≡ some f.field_loc)
      × (IsField w f × HasFields w (ts.field_next w buf loc f.field_loc) fs)

  -- Documented behaviour of Traffic Server: giving a handle back changes no field.
  pub record KeepsFields : Type 0 where
    pub at_next :
        (w : ts.World) (g f : ts.MLoc)
        → ts.field_next (ts.mloc_release w buf loc g) buf loc f ≡ ts.field_next w buf loc f
    pub at_name :
        (w : ts.World) (g f : ts.MLoc)
        → ts.field_name_get (ts.mloc_release w buf loc g) buf loc f ≡ ts.field_name_get w buf loc f
    pub at_count :
        (w : ts.World) (g f : ts.MLoc)
        → ts.field_values_count (ts.mloc_release w buf loc g) buf loc f
          ≡ ts.field_values_count w buf loc f
    pub at_value :
        (w : ts.World) (g f : ts.MLoc) (i : ℕ)
        → ts.field_value_get (ts.mloc_release w buf loc g) buf loc f i
          ≡ ts.field_value_get w buf loc f i

  extract_values-HasValues :
      (w : ts.World) (field : ts.MLoc) (vs : List Bytes) (i : ℕ) (old : List Bytes)
      → HasValues w field i vs
      → extract_values ts (length vs) w buf loc field i old ≡ old ++ vs
  unfolding extract_values
  extract_values-HasValues w field [] i old h = sym (append-nil old)
  extract_values-HasValues w field (v ∷ vs) i old h =
      ap
        (λ x.
          extract_values ts (length vs) w buf loc field (suc i) (old ++ Option.get_or x [] ∷ []))
        h.0
      ∙ extract_values-HasValues w field vs (suc i) (old ++ v ∷ []) h.1
      ∙ append_assoc old (v ∷ []) vs

  extracted :
      (w : ts.World) (field : ts.MLoc) (vs old : List Bytes)
      → HasValues w field 0 vs
      → (if length vs == 0
          then old ++ [] ∷ []
          else extract_values ts (length vs) w buf loc field 0 old)
        ≡ old ++ elim vs [ [] ↦ [] ∷ [] | v ∷ vs ↦ v ∷ vs ]
  extracted w field [] old h = refl
  extracted w field (v ∷ vs) old h =
      rw (suc_not_zero (length vs)) (extract_values-HasValues w field (v ∷ vs) 0 old h)

  pub extract_header_field_values-IsField :
      (w : ts.World) (f : Field ts) (old : List Bytes)
      → IsField w f
      → extract_header_field_values ts w buf loc f.field_loc old ≡ old ++ values_read f
  unfolding extract_header_field_values
  extract_header_field_values-IsField w f old h =
      ap (λ n. if n == 0 then old ++ [] ∷ [] else extract_values ts n w buf loc f.field_loc 0 old)
        h.counted
      ∙ extracted w f.field_loc f.values old h.valued

  -- What a field adds to the map.
  abbrev pub entry : Field ts → NameValuesMap → NameValuesMap
  entry f m = elim f.name [
    | none ↦ m
    | some name ↦ if ltb 0 (length name) then append_at name_less name (values_read f) m else m
  ]

  add_named :
      (w : ts.World) (f : Field ts) (m : NameValuesMap) (name : Option Bytes)
      → IsField w f
      → add_field ts w buf loc f.field_loc name m ≡ elim name [
        | none ↦ m
        | some name ↦ if ltb 0 (length name) then append_at name_less name (values_read f) m else m
      ]
  unfolding add_field
  add_named w f m none h = refl
  add_named w f m (some name) h =
      ap
        (λ g.
          if ltb 0 (length name) then modify name_less name g (insert name_less name [] m) else m)
        (fun_ext (λ old. extract_header_field_values-IsField w f old h))

  add_field-entry :
      (w : ts.World) (f : Field ts) (m : NameValuesMap)
      → IsField w f
      → add_field ts w buf loc f.field_loc (ts.field_name_get w buf loc f.field_loc) m ≡ entry f m
  add_field-entry w f m h =
      ap (λ n. add_field ts w buf loc f.field_loc n m) h.named ∙ add_named w f m f.name h

  unfoldable pub entries : List (Field ts) → NameValuesMap → NameValuesMap
  entries [] m = m
  entries (f ∷ fs) m = entries fs (entry f m)

  module _ (keeps : KeepsFields) where
    HasValues-release :
        (w : ts.World) (g f : ts.MLoc) (i : ℕ) (vs : List Bytes)
        → HasValues w f i vs
        → HasValues (ts.mloc_release w buf loc g) f i vs
    HasValues-release w g f i [] h = h
    HasValues-release w g f i (v ∷ vs) h =
        (keeps.at_value w g f i ∙ h.0, HasValues-release w g f (suc i) vs h.1)

    IsField-release :
        (w : ts.World) (g : ts.MLoc) (f : Field ts)
        → IsField w f
        → IsField (ts.mloc_release w buf loc g) f
    IsField-release w g f h = record {
      named = keeps.at_name w g f.field_loc ∙ h.named;
      counted = keeps.at_count w g f.field_loc ∙ h.counted;
      valued = HasValues-release w g f.field_loc 0 f.values h.valued;
    }

    HasFields-release :
        (w : ts.World) (g : ts.MLoc) (from : Option ts.MLoc) (fs : List (Field ts))
        → HasFields w from fs
        → HasFields (ts.mloc_release w buf loc g) from fs
    HasFields-release w g from [] h = h
    HasFields-release w g from (f ∷ fs) (e, (field, rest)) = (
      e,
      (
        IsField-release w g f field,
        subst (λ n. HasFields (ts.mloc_release w buf loc g) n fs)
            (sym (keeps.at_next w g f.field_loc))
            (HasFields-release w g (ts.field_next w buf loc f.field_loc) fs rest),
      ),
    )

    pub read_fields-entries :
        (fuel : ℕ) (w : ts.World) (from : Option ts.MLoc) (fs : List (Field ts)) (m : NameValuesMap)
        → HasFields w from fs
        → length fs < fuel
        → (read_fields ts fuel w buf loc from m).0 ≡ entries fs m
    unfolding read_fields entries
    read_fields-entries zero w from fs m h less = absurd (omega arith)
    read_fields-entries (suc fuel) w from [] m h less =
        ap (λ o. (read_fields ts (suc fuel) w buf loc o m).0) h
    read_fields-entries (suc fuel) w from (f ∷ fs) m (e, (field, rest)) less =
        ap (λ o. (read_fields ts (suc fuel) w buf loc o m).0) e
        ∙ ap
            (λ x.
              (read_fields ts fuel (ts.mloc_release w buf loc f.field_loc) buf loc
                (ts.field_next w buf loc f.field_loc) x).0)
            (add_field-entry w f m field)
        ∙ read_fields-entries fuel (ts.mloc_release w buf loc f.field_loc)
            (ts.field_next w buf loc f.field_loc) fs (entry f m)
            (HasFields-release w f.field_loc (ts.field_next w buf loc f.field_loc) fs rest)
            (omega arith)

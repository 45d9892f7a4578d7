-- ===== src/Params/Entries.antt =====
-- What the encoder of crates/veloxity_core/src/params/storage.rs leaves in the array for each
-- parameter, and that the decoder reads it back.
use veloxity.Base.{
  both_true, both_left, both_right, ℕ, suc, ◌+◌, ◌-◌, ◌<◌, ◌≤◌, ◌≡◌, ◌⊎◌, inl, inr, refl, sym, ap,
  ◌∙◌, true, false, Bool-cases, ◌&&◌, List, [], ◌∷◌, some, length, ltb, leb, ◌==◌, arith,
}
use veloxity.Params.{Params, get_by_id}
use veloxity.Params.Definition.{ParamDefinition, same_bytes}
use veloxity.Params.Image.{Image, put, slice, put-other, slice-put, slice-same, SameOn}
use veloxity.Params.Storage.{
  Bits, encode_param_value, decode_param_value, rosflight_c_param_type, value_at, name_at, type_at,
  write_definition, name_stored, same_type,
}

pub same_bytes_self : (bytes : List ℕ) → same_bytes bytes bytes ≡ true
unfolding same_bytes
same_bytes_self [] = refl
same_bytes_self (b ∷ bs) = ground (arith, same_bytes_self bs)

pub eq_self : (n : ℕ) → (n == n) ≡ true
eq_self n = ground arith

pub put-here : (image : Image) (offset byte : ℕ) → put image offset (byte ∷ []) offset ≡ byte
unfolding put
put-here image offset byte =
    let here : (leb offset offset && ltb offset (offset + 1)) ≡ true = ground arith in
    let at : offset - offset ≡ 0 = omega arith in rw (here, at)

module _ {F : Type 0} (bits : Bits F) (params : Params F) where
  -- What encoding a definition's value gives, and that it decodes to that value.
  pub record Encodes (d : ParamDefinition F) : Type 0 where
    pub bytes : List ℕ
    pub type : ℕ
    pub encoded : encode_param_value bits (get_by_id params d.id) d.default ≡ some bytes
    pub sized : length bytes ≡ 4
    pub typed : rosflight_c_param_type d.default ≡ some type
    pub named : length d.name ≤ 16
    pub decoded : decode_param_value bits bytes d.default ≡ some (get_by_id params d.id)

  abbrev pub AllEncode : List (ParamDefinition F) → Type 0
  AllEncode [] = Unit
  AllEncode (d ∷ ds) = Encodes d × AllEncode ds

  -- The array holds a definition's name, type and value at an index.
  pub record Stored (image : Image) (index : ℕ) (d : ParamDefinition F) : Type 0 where
    pub name : name_stored image index d.name ≡ true
    pub type : same_type (image (type_at index)) (rosflight_c_param_type d.default) ≡ true
    pub value :
        decode_param_value bits (slice image (value_at index) 4) d.default
        ≡ some (get_by_id params d.id)

  abbrev pub AllStored : Image → ℕ → List (ParamDefinition F) → Type 0
  AllStored image index [] = Unit
  AllStored image index (d ∷ ds) = Stored image index d × AllStored image (suc index) ds

  -- The array after a turn of the encoder's loop.
  abbrev pub written : Image → ℕ → (d : ParamDefinition F) → Encodes d → Image
  written image index d e =
      put (put (put image (value_at index) e.bytes) (name_at index) d.name) (type_at index)
        (e.type ∷ [])

  pub write_definition-some :
      (image : Image) (index : ℕ) (d : ParamDefinition F) (e : Encodes d)
      → write_definition bits params index d image ≡ some (written image index d e)
  unfolding write_definition
  write_definition-some image index d e =
      let fits : ltb 16 (length d.name) ≡ false = ground (arith, e.named) in
      rw (e.encoded, e.typed, fits)

  -- The bytes outside the entries from `index` on.
  abbrev pub Before : ℕ → ℕ → Type 0
  Before index i =
      (i < value_at index)
      ⊎ ((1340 ≤ i) × (i < name_at index))
      ⊎ ((6668 ≤ i) × (i < type_at index))
      ⊎ (7001 ≤ i)

  pub written-Before :
      (image : Image) (index : ℕ) (d : ParamDefinition F) (e : Encodes d) (i : ℕ)
      → index < 333
      → Before index i
      → written image index d e i ≡ image i
  written-Before image index d e i h b =
      put-other (put (put image (value_at index) e.bytes) (name_at index) d.name) (type_at index)
        (e.type ∷ []) i (ground (arith, b, h))
      ∙ put-other (put image (value_at index) e.bytes) (name_at index) d.name i
          (ground (arith, b, h, e.named))
      ∙ put-other image (value_at index) e.bytes i (ground (arith, b, h, e.sized))

  -- The rest of each name's bytes is zero.
  abbrev pub Fresh : ℕ → Image → Type 0
  Fresh index image = (i : ℕ) → name_at index ≤ i → i < 6668 → image i ≡ 0

  pub Fresh-written :
      (image : Image) (index : ℕ) (d : ParamDefinition F) (e : Encodes d)
      → index < 333
      → Fresh index image
      → Fresh (suc index) (written image index d e)
  Fresh-written image index d e h fresh i low high =
      put-other (put (put image (value_at index) e.bytes) (name_at index) d.name) (type_at index)
        (e.type ∷ []) i (ground (arith, h))
      ∙ put-other (put image (value_at index) e.bytes) (name_at index) d.name i
          (ground (arith, e.named))
      ∙ put-other image (value_at index) e.bytes i (ground (arith, h, e.sized))
      ∙ fresh i (omega arith) high

  pub Stored-written :
      (image : Image) (index : ℕ) (d : ParamDefinition F) (e : Encodes d)
      → index < 333
      → Fresh index image
      → Stored (written image index d e) index d
  Stored-written image index d e h fresh =
      let valued = put image (value_at index) e.bytes in
      let called = put valued (name_at index) d.name in
      record {
        name =
            both_true _ _
              (ap (λ bytes. same_bytes bytes d.name)
                  (slice-same (written image index d e) called (name_at index) (length d.name)
                      (λ i low high.
                        put-other called (type_at index) (e.type ∷ []) i
                          (ground (arith, h, e.named)))
                    ∙ slice-put valued (name_at index) d.name)
                ∙ same_bytes_self d.name)
              (elim (Bool-cases (ltb (length d.name) 16)) [
                | inl short ↦
                    let end : written image index d e (name_at index + length d.name) ≡ 0 =
                      put-other called (type_at index) (e.type ∷ []) (name_at index + length d.name)
                        (ground (arith, h, short))
                      ∙ put-other valued (name_at index) d.name (name_at index + length d.name)
                          (ground arith)
                      ∙ put-other image (value_at index) e.bytes (name_at index + length d.name)
                          (ground (arith, h, e.sized))
                      ∙ fresh (name_at index + length d.name) (omega arith)
                          (ground (arith, h, short)) in
                    rw (short, end)
                | inr full ↦ rw full
              ]);
        type =
            ap (λ byte. same_type byte (rosflight_c_param_type d.default))
              (put-here called (type_at index) e.type)
            ∙ ap (same_type e.type) e.typed
            ∙ eq_self e.type;
        value =
            ap (λ bytes. decode_param_value bits bytes d.default)
              (slice-same (written image index d e) valued (value_at index) 4 (λ i low high.
                  put-other called (type_at index) (e.type ∷ []) i (ground (arith, h))
                  ∙ put-other valued (name_at index) d.name i (ground (arith, h)))
                ∙ ap (slice valued (value_at index)) (sym e.sized)
                ∙ slice-put image (value_at index) e.bytes)
            ∙ e.decoded;
      }

  -- Two arrays that agree on the entry at an index.
  abbrev pub SameEntry : ℕ → Image → Image → Type 0
  SameEntry index a b =
      SameOn (value_at index) (value_at index + 4) a b
      × SameOn (name_at index) (name_at index + 16) a b
      × SameOn (type_at index) (type_at index + 1) a b

  pub Stored-same :
      (a b : Image) (index : ℕ) (d : ParamDefinition F)
      → length d.name ≤ 16
      → SameEntry index a b
      → Stored b index d
      → Stored a index d
  Stored-same a b index d l (values, names, types) st = record {
    name =
        both_true _ _
          (ap (λ bytes. same_bytes bytes d.name)
              (slice-same a b (name_at index) (length d.name)
                (λ i low high. names i low (omega (arith, high, l))))
            ∙ both_left _ _ st.name)
          (elim (Bool-cases (ltb (length d.name) 16)) [
            | inl short ↦
                let end : a (name_at index + length d.name) ≡ b (name_at index + length d.name) =
                  names (name_at index + length d.name) (omega arith) (ground (arith, short)) in
                rw end (both_right _ _ st.name)
            | inr full ↦ rw full
          ]);
    type =
        ap (λ byte. same_type byte (rosflight_c_param_type d.default))
          (types (type_at index) (omega arith) (omega arith))
        ∙ st.type;
    value =
        ap (λ bytes. decode_param_value bits bytes d.default)
          (slice-same a b (value_at index) 4 values)
        ∙ st.value;
  }

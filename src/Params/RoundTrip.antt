-- ===== src/Params/RoundTrip.antt =====
-- The loops of crates/veloxity_core/src/params/storage.rs: what the encoder's leaves in the array, and
-- what the decoder's makes of it.
use veloxity.Base.{
  ℕ, suc, ◌+◌, ◌<◌, ◌≤◌, ◌≡◌, inl, inr, refl, ap, ◌∙◌, List, [], ◌∷◌, some, length, if◌then◌else◌,
  arith,
}
use veloxity.Params.{ParamId, Params, get_by_id, set_by_id}
use veloxity.Params.Definition.{ParamDefinition}
use veloxity.Params.Image.{Image}
use veloxity.Params.Storage.{
  Bits, contains, and_then, write_definitions, read_definition, read_definitions,
}
use veloxity.Params.Entries.{
  AllEncode, AllStored, written, Before, Fresh, write_definition-some, written-Before,
  Fresh-written, Stored-written, Stored-same,
}

unfoldable pub ids_of : {F : Type 0} → List (ParamDefinition F) → List ParamId
ids_of [] = []
ids_of (d ∷ ds) = d.id ∷ ids_of ds

module _ {F : Type 0} (bits : Bits F) (params : Params F) where
  pub AllStored-same :
      (a b : Image) (index : ℕ) (ds : List (ParamDefinition F))
      → AllEncode bits params ds
      → index + length ds ≤ 333
      → ((i : ℕ) → i < 7001 → a i ≡ b i)
      → AllStored bits params b index ds
      → AllStored bits params a index ds
  AllStored-same a b index [] e l same st = tt
  AllStored-same a b index (d ∷ ds) (e, es) l same (st, sts) = (
    Stored-same bits params a b index d e.named
        (
          (λ i low high. same i (omega (arith, high, l))),
          (λ i low high. same i (omega (arith, high, l))),
          (λ i low high. same i (omega (arith, high, l))),
        )
        st,
    AllStored-same a b (suc index) ds es (omega (arith, l)) same sts,
  )

  -- The encoder's loop succeeds, keeps the bytes before its entries and after them, and stores each.
  pub write_definitions-AllStored :
      (ds : List (ParamDefinition F)) (index : ℕ) (image : Image)
      → AllEncode bits params ds
      → index + length ds ≤ 333
      → Fresh bits params index image
      → (image' : Image) × (write_definitions bits params index ds image ≡ some image')
        × ((i : ℕ) → Before bits params index i → image' i ≡ image i)
        × AllStored bits params image' index ds
  unfolding write_definitions
  write_definitions-AllStored [] index image e l fresh = (image, refl, (λ i b. refl), tt)
  write_definitions-AllStored (d ∷ ds) index image (e, es) l fresh =
      let next = written bits params image index d e in
      let small : index < 333 = omega (arith, l) in
      let (image', wrote, kept, stored) =
        write_definitions-AllStored ds (suc index) next es (omega (arith, l))
          (Fresh-written bits params image index d e small fresh) in
      (
        image',
        ap (and_then (write_definitions bits params (suc index) ds))
              (write_definition-some bits params image index d e)
            ∙ wrote,
        (λ i b. kept i (grow index i b) ∙ written-Before bits params image index d e i small b),
        (
          Stored-same bits params image' next index d e.named
              (
                (λ i low high. kept i (inl (omega (arith, high)))),
                (λ i low high. kept i (inr (inl (omega (arith, low), omega (arith, high))))),
                (λ i low high. kept i (inr (inr (inl (omega (arith, low), omega (arith, high)))))),
              )
              (Stored-written bits params image index d e small fresh),
          stored,
        ),
      )
    where
      grow : (index i : ℕ) → Before bits params index i → Before bits params (suc index) i
      grow index i (inl b) = inl (omega arith)
      grow index i (inr (inl (b, c))) = inr (inl (b, omega (arith, c)))
      grow index i (inr (inr (inl (b, c)))) = inr (inr (inl (b, omega (arith, c))))
      grow index i (inr (inr (inr b))) = inr (inr (inr b))

  -- The table after each definition's value is copied from `params`.
  unfoldable pub copy_values : List (ParamDefinition F) → Params F → Params F
  copy_values [] table = table
  copy_values (d ∷ ds) table = copy_values ds (set_by_id table d.id (get_by_id params d.id))

  pub read_definitions-AllStored :
      (ds : List (ParamDefinition F)) (index : ℕ) (image : Image) (table : Params F)
      → AllStored bits params image index ds
      → read_definitions bits image index ds table ≡ some (copy_values ds table)
  unfolding read_definitions copy_values
  read_definitions-AllStored [] index image table st = refl
  read_definitions-AllStored (d ∷ ds) index image table (st, sts) =
      let read : read_definition bits image index d ≡ some (get_by_id params d.id) =
        unfold read_definition in rw (st.name, st.type) st.value in
      ap
        (and_then
          (λ value. read_definitions bits image (suc index) ds (set_by_id table d.id value)))
        read
      ∙ read_definitions-AllStored ds (suc index) image _ sts

  pub get_by_id-copy_values :
      (ds : List (ParamDefinition F)) (table : Params F) (id : ParamId)
      → get_by_id (copy_values ds table) id
        ≡ (if contains (ids_of ds) id then get_by_id params id else get_by_id table id)
  unfolding copy_values contains ids_of
  get_by_id-copy_values [] table id = refl
  get_by_id-copy_values (d ∷ ds) table id =
      get_by_id-copy_values ds (set_by_id table d.id (get_by_id params d.id)) id
      ∙ unfold get_by_id set_by_id in ground arith

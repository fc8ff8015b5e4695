-- ===== src/Extractors/Instances/DirBin.antt =====
-- What calls of `write_model_instance` and `write_wmo_instance` append to dir_bin is what the assembler
-- reads from it. The records of doodads, which the extractor appends there as well, are not modelled.
use cmangos_tbc.Base.{
  ℕ, Bool, true, false, not, ◌≡◌, ◌∙◌, inl, inr, refl, sym, ap, Option, Option-cases,
  some_injective, none, some, List, [], ◌∷◌, ◌++◌, arith, Bool-cases, All, ◌==◌, bit_and, ◌⊎◌,
}
use cmangos_tbc.Base.Text.{Text}
use cmangos_tbc.Extractors.Reader.{concat_map}
use cmangos_tbc.Extractors.Float.{FloatOps}
use cmangos_tbc.Extractors.Spawn.{Vec3, DirEntry, read_map_spawns}
use cmangos_tbc.Extractors.Spawn.RoundTrip.{
  IsEntry, write_entry, add_entries, read_map_spawns-write_entry,
}
use cmangos_tbc.Extractors.Instances.{
  UniqueIds, fix_coords, ModelInstanceData, WmoInstanceData, centred, Written, model_bytes,
  wmo_bytes, if_vertices, write_model_instance, write_wmo_instance, read_model_vertex_count,
}
use cmangos_tbc.Extractors.Instances.Record.{
  Instance, model, wmo, Placed, IsPlaced, IsIds, generate_small, model_entry, wmo_entry,
  model_bytes-write_entry, wmo_bytes-write_entry, model_entry-IsEntry, wmo_entry-IsEntry,
}

-- Where an instance stands, before the axes are swapped, and how it is turned.
abbrev pub place_of : Instance → Vec3
place_of (model inst) = inst.position
place_of (wmo inst) = centred inst.position

abbrev pub turn_of : Instance → Vec3
turn_of (model inst) = inst.rotation
turn_of (wmo inst) = inst.rotation

abbrev pub is_destroyed : Instance → Bool
is_destroyed (model inst) = false
is_destroyed (wmo inst) = not (bit_and inst.flags 1 == 0)

module _ (float : FloatOps) (files : Text → Option (List ℕ)) where
  unfoldable pub write_instance : Placed → Instance → UniqueIds → Option Written
  write_instance p (model inst) ids =
      write_model_instance float p.map_id p.tile_x p.tile_y p.name files inst ids
  write_instance p (wmo inst) ids =
      write_wmo_instance float p.map_id p.tile_x p.tile_y p.name files inst ids

  -- A record that a call writes: its map, tile, name, position and rotation are those of the call.
  abbrev pub Shows : Placed → DirEntry → Type 0
  Shows p e =
      (e.map_id ≡ p.map_id)
      × ((e.tile_x ≡ p.tile_x)
          × ((e.tile_y ≡ p.tile_y)
              × ((e.spawn.name ≡ p.name)
                  × ((e.spawn.pos ≡ fix_coords (place_of p.inst))
                      × (e.spawn.rot ≡ turn_of p.inst)))))

  -- Nothing is written for a building that is destroyed, and for a model without a file or vertices.
  abbrev pub IsOmitted : Placed → Type 0
  IsOmitted p =
      (is_destroyed p.inst ≡ true)
      ⊎ ((read_model_vertex_count (files p.name) ≡ some none)
          ⊎ (read_model_vertex_count (files p.name) ≡ some (some 0)))

  -- A call writes nothing or one record.
  abbrev Step : Placed → Written → Type 0
  Step p out =
      IsIds out.0
      × (((out.1 ≡ []) × IsOmitted p)
          ⊎ ((e : DirEntry) × ((out.1 ≡ write_entry e) × (IsEntry e × Shows p e))))

  if_vertices-Step :
      (p : Placed) (count : Option (Option ℕ)) (written out : Written) (ids : UniqueIds)
      → IsIds ids
      → read_model_vertex_count (files p.name) ≡ count
      → Step p written
      → if_vertices float p.map_id p.tile_x p.tile_y p.name count written ids ≡ some out
      → Step p out
  unfolding if_vertices
  if_vertices-Step p none written out ids small ec h e = cc
  if_vertices-Step p (some none) written out ids small ec h e =
      let same : out ≡ (ids, []) = cc in rw same (small, inl (refl, inr (inl ec)))
  if_vertices-Step p (some (some n)) written out ids small ec h e = elim (Bool-cases (n == 0)) [
    | inl empty ↦
        let e' = rw empty at e in
        let same : out ≡ (ids, []) = cc in
        let none_left : n ≡ 0 = ground arith in
        rw same (small, inl (refl, inr (inr (ec ∙ ap (λ k. some (some k)) none_left))))
    | inr full ↦ let e' = rw full at e in let same : out ≡ written = cc in rw same h
  ]

  model_bytes-Step :
      (p : Placed) (inst : ModelInstanceData) (ids : UniqueIds)
      → IsPlaced float (record p { inst = model inst })
      → IsIds ids
      → p.inst ≡ model inst
      → Step p (model_bytes float p.map_id p.tile_x p.tile_y p.name inst ids)
  unfolding model_entry model_bytes
  model_bytes-Step p inst ids h small ei = (
    (generate_small inst.id 0 ids small).1,
    inr (
      model_entry float p.map_id p.tile_x p.tile_y p.name inst ids,
      (
        model_bytes-write_entry float p.map_id p.tile_x p.tile_y p.name inst ids,
        (
          model_entry-IsEntry float p.map_id p.tile_x p.tile_y p.name inst ids h small,
          (refl, (refl, (refl, (refl, (rw ei refl, rw ei refl))))),
        ),
      ),
    ),
  )

  wmo_bytes-Step :
      (p : Placed) (inst : WmoInstanceData) (ids : UniqueIds)
      → IsPlaced float (record p { inst = wmo inst })
      → IsIds ids
      → p.inst ≡ wmo inst
      → Step p (wmo_bytes float p.map_id p.tile_x p.tile_y p.name inst ids)
  unfolding wmo_entry wmo_bytes
  wmo_bytes-Step p inst ids h small ei = (
    (generate_small inst.unique_id 0 ids small).1,
    inr (
      wmo_entry float p.map_id p.tile_x p.tile_y p.name inst ids,
      (
        wmo_bytes-write_entry float p.map_id p.tile_x p.tile_y p.name inst ids,
        (
          wmo_entry-IsEntry float p.map_id p.tile_x p.tile_y p.name inst ids h small,
          (refl, (refl, (refl, (refl, (rw ei refl, rw ei refl))))),
        ),
      ),
    ),
  )

  write_instance-Step :
      (p : Placed) (inst : Instance) (ids : UniqueIds) (out : Written)
      → IsPlaced float (record p { inst = inst })
      → IsIds ids
      → p.inst ≡ inst
      → write_instance p inst ids ≡ some out
      → Step p out
  unfolding write_instance write_model_instance write_wmo_instance
  write_instance-Step p (model inst) ids out h small ei e =
      if_vertices-Step p (read_model_vertex_count (files p.name)) _ out ids small refl
        (model_bytes-Step p inst ids h small ei) e
  write_instance-Step p (wmo inst) ids out h small ei e =
      elim (Bool-cases (bit_and inst.flags 1 == 0)) [
        | inl shown ↦
            if_vertices-Step p (read_model_vertex_count (files p.name)) _ out ids small refl
              (wmo_bytes-Step p inst ids h small ei) (rw (write_instance, shown) at e)
        | inr destroyed ↦
            let e' = rw (write_instance, destroyed) at e in
            let same : out ≡ (ids, []) = cc in
            let hidden : is_destroyed p.inst ≡ true = rw (ei, destroyed) refl in
            rw same (small, inl (refl, inl hidden))
      ]

  unfoldable pub then_append : List ℕ → Option Written → Option Written
  then_append bs none = none
  then_append bs (some (ids, cs)) = some (ids, bs ++ cs)

  -- A sequence of calls with the same folder of models; the first error ends it.
  unfoldable pub write_instances : List Placed → UniqueIds → Option Written
  unfolding then_append
  write_instances [] ids = some (ids, [])
  write_instances (p ∷ ps) ids = elim (write_instance p p.inst ids) [
    | none ↦ none
    | some (ids', bs) ↦ then_append bs (write_instances ps ids')
  ]

  -- The records of the calls: each call has one or none, in the same order.
  pub data Listed : List Placed → List DirEntry → Type 0 where
    listed_end : Listed [] []
    skipped :
        {p : Placed} {ps : List Placed} {es : List DirEntry}
        → IsOmitted p
        → Listed ps es
        → Listed (p ∷ ps) es
    listed :
        {p : Placed} {ps : List Placed} {e : DirEntry} {es : List DirEntry}
        → Shows p e
        → Listed ps es
        → Listed (p ∷ ps) (e ∷ es)

  then_append-cases :
      (bs : List ℕ) (rest : Option Written) (out : Written)
      → then_append bs rest ≡ some out
      → (mid : Written) × ((rest ≡ some mid) × (out.1 ≡ bs ++ mid.1))
  unfolding then_append
  then_append-cases bs none out h = cc
  then_append-cases bs (some (ids, cs)) out h =
      ((ids, cs), (refl, sym (ap (λ o. o.1) (some_injective h))))

  run_entries :
      (ps : List Placed) (ids : UniqueIds) (out : Written)
      → IsIds ids
      → All (IsPlaced float) ps
      → write_instances ps ids ≡ some out
      → (es : List DirEntry) × (Listed ps es
          × (All IsEntry es × (out.1 ≡ concat_map write_entry es)))
  unfolding write_instances concat_map
  run_entries [] ids out small h e =
      ([], (listed_end, (tt, sym (ap (λ o. o.1) (some_injective e)))))
  run_entries (p ∷ ps) ids out small h e = elim (Option-cases (write_instance p p.inst ids)) [
    | inl failed ↦ absurd (let e' = rw (write_instances, failed) at e in cc)
    | inr ((ids', bs), done) ↦
        let step = write_instance-Step p p.inst ids (ids', bs) h.0 small refl done in
        let (mid, (rest, bytes)) =
          then_append-cases bs (write_instances ps ids') out (rw (write_instances, done) at e) in
        let (es, (listing, (valid, tail))) = run_entries ps ids' mid step.0 h.1 rest in
        elim step.1 [
          | inl (empty, omitted) ↦
              (es, (skipped omitted listing, (valid, bytes ∙ ap (λ t. t ++ mid.1) empty ∙ tail)))
          | inr (d, (same, (ok, shows))) ↦ (
            d ∷ es,
            (
              listed shows listing,
              ((ok, valid), bytes ∙ ap (λ t. t ++ mid.1) same ∙ ap (λ t. write_entry d ++ t) tail),
            ),
          )
        ]
  ]

-- What a sequence of calls of `write_model_instance` and `write_wmo_instance` appends to an empty
-- dir_bin, if none fails and the folder of models stays the same, is read by the assembler without an
-- error: the result is that of adding, in order, one record for each call that writes, with the call's
-- map, tile, name, rotation and position (the axes swapped, and the middle of the map where none is
-- given). A call writes nothing only for a destroyed building and for a model without a file or
-- vertices. The names are at most 500 bytes of UTF-8, the numbers fit their types.
pub read_map_spawns-write_instances :
    (float : FloatOps) (files : Text → Option (List ℕ)) (ps : List Placed) (ids : UniqueIds)
    (out : Written)
    → IsIds ids
    → All (IsPlaced float) ps
    → write_instances float files ps ids ≡ some out
    → (es : List DirEntry) × (Listed float files ps es
        × (read_map_spawns out.1 ≡ some (add_entries es [])))
read_map_spawns-write_instances float files ps ids out small h e =
    let (es, (listing, (valid, bytes))) = run_entries float files ps ids out small h e in
    (es, (listing, ap read_map_spawns bytes ∙ read_map_spawns-write_entry es valid))

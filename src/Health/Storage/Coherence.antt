-- ===== src/Health/Storage/Coherence.antt =====
-- The cache of internal/app/health/storage.go against the table behind it, over sequences of writes.
use pinai.Base.{
  ℕ, ◌≡◌, ◌≢◌, ◌↔◌, refl, ap, sym, ◌∙◌, inl, inr, Bool, true, false, List, [], ◌∷◌, Option, none,
  some, ◌&&◌, ◌==◌, if◌then◌else◌, arith, Bool-cases, Option-cases,
}
use pinai.Base.Text.{Text, text_eq_eq}
use pinai.Base.Assoc.{Assoc, lookup, insert, lookup-insert, lookup-remove}
use pinai.Health.{Health}
use pinai.Health.Storage.{
  Table, IsTable, IsUnique, find_first, Storage, Error, make_key, key_of, load_all, new_storage,
  get, set_status, delete, timeless, without_times,
}
use pinai.Health.Storage.Key.{text_eq-make_key}

or_else : Option Health → Option Health → Option Health
or_else none b = b
or_else (some a) b = some a

lookup-load_all :
    (hs : List Health) (cache : Assoc Text Health) (t id : ℕ)
    → IsUnique hs
    → lookup (make_key t id) (load_all hs cache)
      ≡ or_else (find_first t id hs) (lookup (make_key t id) cache)
unfolding load_all or_else
lookup-load_all [] cache t id u = refl
lookup-load_all (h ∷ hs) cache t id (fresh, u) =
    let ih = lookup-load_all hs (insert (key_of h) h cache) t id u in
    elim (Bool-cases ((h.resource_type == t) && (h.resource_id == id))) [
      | inl same ↦ ground (
        arith,
        ih,
        lookup-insert (key_of h) (make_key t id) h cache,
        text_eq-make_key h.resource_type h.resource_id t id,
      )
      | inr other ↦ ground (
        arith,
        ih,
        lookup-insert (key_of h) (make_key t id) h cache,
        text_eq-make_key h.resource_type h.resource_id t id,
      )
    ]

module _ {T : Table} where
  -- A write shows in the cache whether or not the table takes it, and the other resources keep
  -- their entries; no error is reported exactly when the table took it.
  pub get-set_status :
      (h : Health) (s : Storage T) (t id : ℕ)
      → (get t id (set_status h s).0 ≡ (
          if (h.resource_type == t) && (h.resource_id == id)
          then some (T.save h s.db).0
          else get t id s))
        × (((set_status h s).1 ≡ none) ↔ ((T.save h s.db).1 ≢ none))
  unfolding set_status get
  get-set_status h s t id =
      let view = lookup-insert (key_of h) (make_key t id) (T.save h s.db).0 s.cache in
      let same = text_eq-make_key h.resource_type h.resource_id t id in
      elim (Option-cases (T.save h s.db).1) [
        | inl failed ↦ (ground (arith, view, same), ground arith)
        | inr (db, saved) ↦ (ground (arith, view, same), ground arith)
      ]

  -- A removal shows in the cache whether or not the table takes it, and the other resources keep
  -- their entries; no error is reported exactly when the table took it.
  pub get-delete :
      (t0 id0 : ℕ) (s : Storage T) (t id : ℕ)
      → (get t id (delete t0 id0 s).0 ≡ (if (t0 == t) && (id0 == id) then none else get t id s))
        × (((delete t0 id0 s).1 ≡ none) ↔ (T.delete t0 id0 s.db ≢ none))
  unfolding delete get
  get-delete t0 id0 s t id =
      let view = lookup-remove (make_key t0 id0) (make_key t id) s.cache in
      let same = text_eq-make_key t0 id0 t id in
      elim (Option-cases (T.delete t0 id0 s.db)) [
        | inl failed ↦ (ground (arith, view, same), ground arith)
        | inr (db, saved) ↦ (ground (arith, view, same), ground arith)
      ]

pub data Write : Type 0 where
  sets : Health → Write
  deletes : ℕ → ℕ → Write

module _ {T : Table} where
  unfoldable pub apply : Write → Storage T → Storage T × Option Error
  unfolding set_status delete
  apply (sets h) s = set_status h s
  apply (deletes t id) s = delete t id s

  unfoldable pub apply_all : List Write → Storage T → Storage T
  unfolding apply
  apply_all [] s = s
  apply_all (w ∷ ws) s = apply_all ws (apply w s).0

  -- None of the writes reports an error.
  abbrev pub AreTaken : List Write → Storage T → Type 0
  AreTaken [] s = Unit
  AreTaken (sets h ∷ ws) s = ((set_status h s).1 ≡ none) × AreTaken ws (set_status h s).0
  AreTaken (deletes t id ∷ ws) s = ((delete t id s).1 ≡ none) × AreTaken ws (delete t id s).0

  new_storage-db : (db : T.Db) (s : Storage T) → new_storage db ≡ some s → s.db ≡ db
  unfolding new_storage
  new_storage-db db s e = ground arith

module _ {T : Table} (laws : IsTable T) where
  -- What the cache says of a resource is what its row says, the two times of the row left aside.
  abbrev pub IsCoherent : Storage T → Type 0
  IsCoherent s = (t id : ℕ) → timeless (get t id s) ≡ timeless (laws.row t id s.db)

  -- Every resource reads in the cache as its row, with its times.
  abbrev IsLoaded : Storage T → Type 0
  IsLoaded s = (t id : ℕ) → get t id s ≡ laws.row t id s.db

  -- A storage that could be built agrees with the table.
  new_storage-IsLoaded : (db : T.Db) (s : Storage T) → new_storage db ≡ some s → IsLoaded s
  unfolding new_storage get or_else lookup
  new_storage-IsLoaded db s e t id = elim (Option-cases (T.find db)) [
    | inl failed ↦ cc
    | inr (hs, found) ↦ ground (
      arith,
      lookup-load_all hs [] t id (laws.find_unique db hs found),
      laws.find_row db hs found t id,
    )
  ]

  pub new_storage-IsCoherent : (db : T.Db) (s : Storage T) → new_storage db ≡ some s → IsCoherent s
  new_storage-IsCoherent db s e t id = ap timeless (new_storage-IsLoaded db s e t id)

  saved_row :
      (b : Bool) (h : Health) (read read' row row' : Option Health)
      → timeless row' ≡ (if b then some (without_times h) else timeless row)
      → read' ≡ (if b then some h else read)
      → timeless read ≡ timeless row
      → timeless read' ≡ timeless row'
  saved_row true h read read' row row' r g c = ap timeless g ∙ sym r
  saved_row false h read read' row row' r g c = ap timeless g ∙ c ∙ sym r

  set_status-IsCoherent :
      (h : Health) (s : Storage T)
      → IsCoherent s
      → (set_status h s).1 ≡ none
      → IsCoherent (set_status h s).0
  unfolding set_status
  set_status-IsCoherent h s c e t id = elim (Option-cases (T.save h s.db).1) [
    | inl failed ↦ ground arith
    | inr (db, saved) ↦
        let written : (set_status h s).0.db ≡ db = ground arith in
        saved_row _ _ _ _ _ _ (laws.row-save h s.db db saved t id) (get-set_status h s t id).0
          (c t id)
        ∙ ap (λ d. timeless (laws.row t id d)) (sym written)
  ]

  delete-IsCoherent :
      (t0 id0 : ℕ) (s : Storage T)
      → IsCoherent s
      → (delete t0 id0 s).1 ≡ none
      → IsCoherent (delete t0 id0 s).0
  unfolding delete
  delete-IsCoherent t0 id0 s c e t id = elim (Option-cases (T.delete t0 id0 s.db)) [
    | inl failed ↦ ground arith
    | inr (db, saved) ↦
        ground
          (arith, (get-delete t0 id0 s t id).0, c t id, laws.row-delete t0 id0 s.db db saved t id)
  ]

  -- Any number of writes, in order, each of which the table takes: what the cache says of each
  -- resource stays what its row says, but for the two times of the row.
  pub apply_all-IsCoherent :
      (ws : List Write) (s : Storage T) → IsCoherent s → AreTaken ws s → IsCoherent (apply_all ws s)
  unfolding apply_all apply
  apply_all-IsCoherent [] s c ok = c
  apply_all-IsCoherent (sets h ∷ ws) s c (ok, oks) =
      apply_all-IsCoherent ws (set_status h s).0 (set_status-IsCoherent h s c ok) oks
  apply_all-IsCoherent (deletes t id ∷ ws) s c (ok, oks) =
      apply_all-IsCoherent ws (delete t id s).0 (delete-IsCoherent t id s c ok) oks

  -- A storage that was loaded and then written to, every write taken by the table, says of each
  -- resource what a storage says that is loaded from the table afterwards, but for the times at
  -- which the row was created and updated: a restart loses nothing else.
  pub restart_same :
      (db : T.Db) (s s' : Storage T) (ws : List Write)
      → new_storage db ≡ some s
      → AreTaken ws s
      → new_storage (apply_all ws s).db ≡ some s'
      → (t id : ℕ) → timeless (get t id s') ≡ timeless (get t id (apply_all ws s))
  restart_same db s s' ws loaded ok reloaded t id =
      new_storage-IsCoherent (apply_all ws s).db s' reloaded t id
      ∙ ap (λ d. timeless (laws.row t id d)) (new_storage-db (apply_all ws s).db s' reloaded)
      ∙ sym (apply_all-IsCoherent ws s (new_storage-IsCoherent db s loaded) ok t id)

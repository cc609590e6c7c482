-- ===== src/Store/Loading.antt =====
-- src-tauri/src/config/routing_store.rs: what a store satisfies that was loaded from a directory.
use mathlib.Core.Path.{subst, ap}
use kwik_proxy_secure.Prelude.{
  is_some, Text, text_eq, any, Bool, true, false, not, ◌&&◌, List, [], ◌∷◌, Option, none, some,
  Result, ok, err, ◌≡◌, ◌⊎◌, inl, inr, refl, sym, ◌∙◌, arith, All, Bool-cases, if◌then◌else◌, leb,
  trim, len,
}
use kwik_proxy_secure.Profile
use kwik_proxy_secure.Profile.{
  Codec, RoutingProfile, RoutingProfileEntry, ProfileSource, static, autorouting, validate,
  validate_entry, new_entry,
}
use kwik_proxy_secure.Store.{
  known, load_parsed, max_file_bytes, load_checked, RoutingStore, Disk, Os, EntryCodec, has_id,
  load_file, push_some, load_files, load_active, load_from, load, find_entry,
}
use kwik_proxy_secure.Store.Keys.{
  is_some-find_entry, text_eq_trans, text_eq-true, HasDistinctIds, HasDistinctNames, lookup,
}

-- The active id, if any, is that of an entry.
abbrev pub IsKnown : List RoutingProfileEntry → Option Text → Type 0
IsKnown es none = Unit
IsKnown es (some id) = any (has_id id) es ≡ true

abbrev pub IsAccepted : EntryCodec → RoutingProfileEntry → Type 0
IsAccepted c e = validate_entry c.codec e ≡ ok tt

pub record IsStore (c : EntryCodec) (s : RoutingStore) : Type 0 where
  pub valid : All (IsAccepted c) s.entries
  pub distinct : HasDistinctIds s.entries
  pub known : IsKnown s.entries s.active_id

module _ (c : EntryCodec) where
  -- Loading.
  load_checked_lem :
      (stem : Text) (e x : RoutingProfileEntry) (r : Result Profile.Error (Unit {0}))
      → validate_entry c.codec x ≡ r
      → load_checked c stem x r ≡ some e
      → IsAccepted c e × (text_eq e.id stem ≡ true)
  load_checked_lem stem e x (err _) valid h = cc
  load_checked_lem stem e x (ok _) valid h = elim (Bool-cases (text_eq x.id stem)) [
    | inl same ↦
        let there : x ≡ e = ground (arith, h, same) in
        (subst (IsAccepted c) there valid, subst (λ y. text_eq y.id stem ≡ true) there same)
    | inr other ↦ ground (arith, h, other)
  ]

  load_parsed_lem :
      (stem : Text) (e : RoutingProfileEntry) (o : Option RoutingProfileEntry)
      → load_parsed c stem o ≡ some e
      → IsAccepted c e × (text_eq e.id stem ≡ true)
  load_parsed_lem stem e none h = cc
  load_parsed_lem stem e (some x) h = load_checked_lem stem e x _ refl h

  pub load_file_lem :
      (stem text : Text) (e : RoutingProfileEntry)
      → load_file c stem text ≡ some e
      → IsAccepted c e × (text_eq e.id stem ≡ true)
  unfolding load_file
  load_file_lem stem text e h = elim (Bool-cases (leb (len text) max_file_bytes)) [
    | inl small ↦ load_parsed_lem stem e (c.from_json text) (ground (arith, h, small))
    | inr large ↦ ground (arith, h, large)
  ]

  load_files_lem : (fs : List (Text × Text)) → All (IsAccepted c) (load_files c fs)
  unfolding load_files
  load_files_lem [] = tt
  load_files_lem ((n, t) ∷ fs) = go (load_file c n t) refl (load_files c fs) (load_files_lem fs)
    where
      go :
          (o : Option RoutingProfileEntry)
          → load_file c n t ≡ o
          → (es : List RoutingProfileEntry) → All (IsAccepted c) es
          → All (IsAccepted c) (push_some c o es)
      go none h es hs = hs
      go (some e) h es hs = ((load_file_lem n t e h).0, hs)

  abbrev pub loaded : Text → Option Text → Option RoutingProfileEntry
  loaded k none = none
  loaded k (some text) = load_file c k text

  -- What is loaded under an id is what its file holds.
  pub find_entry-load_files :
      (k : Text) (fs : List (Text × Text))
      → HasDistinctNames fs
      → find_entry k (load_files c fs) ≡ loaded k (lookup k fs)
  unfolding load_files
  find_entry-load_files k [] h = refl
  find_entry-load_files k ((n, t) ∷ fs) h =
      go (load_file c n t) refl (load_files c fs) (find_entry-load_files k fs h.1)
        (Bool-cases (text_eq n k))
    where
      absent : text_eq n k ≡ true → lookup k fs ≡ none
      absent same = subst (λ x. lookup x fs ≡ none) (text_eq-true n k same) h.0

      moved : text_eq n k ≡ true → load_file c k t ≡ load_file c n t
      moved same = sym (ap (λ x. load_file c x t) (text_eq-true n k same))

      go :
          (o : Option RoutingProfileEntry)
          → load_file c n t ≡ o
          → (es : List RoutingProfileEntry) → find_entry k es ≡ loaded k (lookup k fs)
          → (text_eq n k ≡ true) ⊎ (text_eq n k ≡ false)
          → find_entry k (push_some c o es) ≡ loaded k (if text_eq n k then some t else lookup k fs)
      go none h' es ih (inl same) = rw (same, ih, absent same, moved same, h') refl
      go none h' es ih (inr other) = rw (other, ih) refl
      go (some e) h' es ih (inl same) =
          rw (same, moved same, h', text_eq_trans e.id n k (load_file_lem n t e h').1, same) refl
      go (some e) h' es ih (inr other) =
          rw (other, text_eq_trans e.id n k (load_file_lem n t e h').1, other, ih) refl

  pub any-load_files :
      (k : Text) (fs : List (Text × Text))
      → HasDistinctNames fs
      → any (has_id k) (load_files c fs) ≡ is_some (loaded k (lookup k fs))
  any-load_files k fs h =
      sym (is_some-find_entry k (load_files c fs)) ∙ ap is_some (find_entry-load_files k fs h)

  load_files-distinct :
      (fs : List (Text × Text)) → HasDistinctNames fs → HasDistinctIds (load_files c fs)
  unfolding load_files
  load_files-distinct [] h = tt
  load_files-distinct ((n, t) ∷ fs) h =
      go (load_file c n t) refl (load_files c fs) (any-load_files n fs h.1)
        (load_files-distinct fs h.1)
    where
      go :
          (o : Option RoutingProfileEntry)
          → load_file c n t ≡ o
          → (es : List RoutingProfileEntry) → any (has_id n) es ≡ is_some (loaded n (lookup n fs))
          → HasDistinctIds es
          → HasDistinctIds (push_some c o es)
      go none h' es e hs = hs
      go (some x) h' es e hs =
          (rw (text_eq-true x.id n (load_file_lem n t x h').1, e, h.0) refl, hs)

  known-IsKnown : (es : List RoutingProfileEntry) (id : Text) → IsKnown es (known c es id)
  known-IsKnown es id = elim (Bool-cases (any (has_id id) es)) [
    | inl there ↦ subst (IsKnown es) (sym (ap (λ b. if b then some id else none) there)) there
    | inr gone ↦ subst (IsKnown es) (sym (ap (λ b. if b then some id else none) gone)) tt
  ]

  load_active-IsKnown :
      (es : List RoutingProfileEntry) (o : Option Text) → IsKnown es (load_active c es o)
  unfolding load_active
  load_active-IsKnown es none = tt
  load_active-IsKnown es (some t) =
      elim (Bool-cases (leb (len t) 128 && not (text_eq (trim t) []))) [
        | inl good ↦
            subst (IsKnown es) (sym (ap (λ b. if b then known c es (trim t) else none) good))
              (known-IsKnown es (trim t))
        | inr bad ↦
            subst (IsKnown es) (sym (ap (λ b. if b then known c es (trim t) else none) bad)) tt
      ]

  pub load-IsStore :
      (os : Os) (d : Disk) → HasDistinctNames d.files → IsStore c (load c os (some d))
  unfolding load
  load-IsStore os d h = go os.has_dir
    where
      go :
          (b : Bool)
          → IsStore c (if b then load_from c d else record { entries = []; active_id = none })
      go false = record { valid = tt; distinct = tt; known = tt }
      go true = record {
        valid = load_files_lem d.files;
        distinct = load_files-distinct d.files h;
        known = load_active-IsKnown (load_files c d.files) d.active;
      }

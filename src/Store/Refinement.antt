-- ===== src/Store/Refinement.antt =====
-- src-tauri/src/config/routing_store.rs: what the store promises, as a function from ids to entries.
use mathlib.Core.Path.{subst, ap}
use kwik_proxy_secure.Prelude.{
  Text, text_eq, length, any, Bool, true, false, not, Option, none, some, Result, ok, err, ◌≡◌, inl,
  inr, refl, sym, ◌∙◌, arith, Bool-cases, if◌then◌else◌, ◌==◌, is_some, is_some_and, if-holds,
}
use kwik_proxy_secure.Profile
use kwik_proxy_secure.Profile.{
  RoutingProfile, RoutingProfileEntry, ProfileSource, validate, validate_entry, new_entry,
}
use kwik_proxy_secure.Store.{
  RoutingStore, Disk, Os, EntryCodec, has_id, find_entry, retain_others, stamp, refreshed, pushed,
  activated, is_active, changed,
}
use kwik_proxy_secure.Store.Keys.{
  text_eq-true, IsFresh, find_entry-IsFresh, is_some-find_entry, find_entry-append,
}
use kwik_proxy_secure.Store.Changes.{
  find_entry-retain_others, find_entry-change_entry, changed_by, retain_others-IsFresh,
}
use kwik_proxy_secure.Store.Effects.{
  Op, add_op, remove_op, set_active_op, update_op, run_op, effect, if_valid, run_op-effect,
}
use kwik_proxy_secure.Store.Invariant.{IsUnused}

-- The entry under each id, and the active id.
pub record Profiles : Type 0 where
  pub get : Text → Option RoutingProfileEntry
  pub active : Option Text

abbrev pub view : RoutingStore → Profiles
view s = record { get = λ k. find_entry k s.entries; active = s.active_id }

abbrev pub when_valid {ℓ} : {A : Type ℓ} → Result Profile.Error (Unit {0}) → A → A → A
when_valid (err e) x y = x
when_valid (ok _) x y = y

abbrev pub clear_if : Text → Option Text → Option Text
clear_if id none = none
clear_if id (some a) = if text_eq a id then none else some a

-- What each operation means. Adding sets a new id, removing unsets an id, updating changes what is under
-- an id, and only a known id becomes active.
abbrev pub meaning : EntryCodec → Os → Op → Profiles → Profiles
meaning c os (add_op p src) m =
    when_valid (validate_entry c.codec (new_entry os.uuid p src)) m (record m {
      get =
          λ k. if text_eq os.uuid k then some (stamp os.now (new_entry os.uuid p src)) else m.get k;
    })
meaning c os (remove_op id) m =
    if is_some (m.get id)
    then record { get = λ k. if text_eq id k then none else m.get k; active = clear_if id m.active }
    else m
meaning c os (set_active_op none) m = record m { active = none }
meaning c os (set_active_op (some id)) m =
    if is_some (m.get id) then record m { active = some id } else m
meaning c os (update_op id p) m = when_valid (validate c.codec p) m (record m {
  get = λ k. if text_eq id k then changed_by (refreshed os.now p) (m.get k) else m.get k;
})

pub Profiles-ext : (m n : Profiles) → ((k : Text) → m.get k ≡ n.get k) → m.active ≡ n.active → m ≡ n
Profiles-ext m n h h' = λ i. record { get = λ k. h k i; active = h' i }

module _ (c : EntryCodec) (os : Os) where
  added-view :
      (e : RoutingProfileEntry) (s : RoutingStore) (r : Result Profile.Error (Unit {0}))
      → IsFresh e.id s.entries
      → view (if_valid r s (pushed c os s e))
        ≡ when_valid r (view s) (record (view s) {
          get = λ k. if text_eq e.id k then some e else find_entry k s.entries;
        })
  added-view e s (err x) fresh = refl
  added-view e s (ok _) fresh = Profiles-ext _ _ (λ k. find_entry-append k s.entries e fresh) refl

  pub unchanged_get :
      (id : Text) (s : RoutingStore)
      → any (has_id id) s.entries ≡ false
      → (k : Text) → find_entry k (retain_others id s.entries) ≡ find_entry k s.entries
  unchanged_get id s fresh k = elim (Bool-cases (text_eq id k)) [
    | inl same ↦
        let absent : find_entry k s.entries ≡ none =
          find_entry-IsFresh k s.entries
            (subst (λ x. any (has_id x) s.entries ≡ false) (text_eq-true id k same) fresh) in
        find_entry-retain_others k id s.entries ∙ rw (same, absent) refl
    | inr other ↦ find_entry-retain_others k id s.entries ∙ rw (other) refl
  ]

  removed-view :
      (id : Text) (s : RoutingStore)
      → view (effect c os (remove_op id) s) ≡ meaning c os (remove_op id) (view s)
  removed-view id s = elim (Bool-cases (any (has_id id) s.entries)) [
    | inl there ↦
        if-holds (λ t. view t ≡ removed) (length (retain_others id s.entries) == length s.entries) _
          _ (λ same. ground (arith, same, there, retain_others-IsFresh id s.entries))
          (λ shorter.
            if-holds (λ t. view t ≡ removed) (is_active c os id s) _ _
              (λ was.
                Profiles-ext _ _ (λ k. find_entry-retain_others k id s.entries)
                  (cleared-view s.active_id was))
              (λ was.
                Profiles-ext _ _ (λ k. find_entry-retain_others k id s.entries)
                  (kept-view s.active_id was)))
        ∙ sym (ap (λ b. if b then removed else view s) (is_some-find_entry id s.entries ∙ there))
    | inr gone ↦
        if-holds (λ t. view t ≡ view s) (length (retain_others id s.entries) == length s.entries) _
          _ (λ same. Profiles-ext _ _ (unchanged_get id s gone) refl)
          (λ shorter. ground (arith, shorter, gone, retain_others-IsFresh id s.entries))
        ∙ sym (ap (λ b. if b then removed else view s) (is_some-find_entry id s.entries ∙ gone))
  ]
    where
      removed : Profiles
      removed = record {
        get = λ k. if text_eq id k then none else find_entry k s.entries;
        active = clear_if id s.active_id;
      }

      cleared-view :
          (o : Option Text) → is_some_and (λ a. text_eq a id) o ≡ true → none ≡ clear_if id o
      cleared-view none h = refl
      cleared-view (some a) h = ground (arith, h)

      kept-view : (o : Option Text) → is_some_and (λ a. text_eq a id) o ≡ false → o ≡ clear_if id o
      kept-view none h = refl
      kept-view (some a) h = ground (arith, h)

  updated-view :
      (id : Text) (p : RoutingProfile) (s : RoutingStore) (r : Result Profile.Error (Unit {0}))
      → view (if_valid r s (if not (any (has_id id) s.entries) then s else changed c os id p s))
        ≡ when_valid r (view s) (record (view s) {
          get = λ k.
              if text_eq id k
              then changed_by (refreshed os.now p) (find_entry k s.entries)
              else find_entry k s.entries;
        })
  updated-view id p s (err x) = refl
  updated-view id p s (ok _) =
      if-holds (λ t. view t ≡ record (view s) { get = changed_get })
        (not (any (has_id id) s.entries)) _ _
        (λ gone. Profiles-ext _ _ (λ k. same_get (ground (arith, gone)) k) refl)
        (λ there.
          Profiles-ext _ _
            (λ k. find_entry-change_entry (refreshed os.now p) (λ e. refl) k id s.entries) refl)
    where
      changed_get : Text → Option RoutingProfileEntry
      changed_get k =
          if text_eq id k
          then changed_by (refreshed os.now p) (find_entry k s.entries)
          else find_entry k s.entries

      same_get :
          any (has_id id) s.entries ≡ false → (k : Text) → find_entry k s.entries ≡ changed_get k
      same_get gone k = elim (Bool-cases (text_eq id k)) [
        | inl same ↦
            let absent : find_entry k s.entries ≡ none =
              find_entry-IsFresh k s.entries
                (subst (λ x. any (has_id x) s.entries ≡ false) (text_eq-true id k same) gone) in
            rw (same, absent) refl
        | inr other ↦ rw (other) refl
      ]

  activated-view :
      (id : Text) (s : RoutingStore)
      → view (if not (any (has_id id) s.entries) then s else activated c os (some id) s)
        ≡ meaning c os (set_active_op (some id)) (view s)
  activated-view id s =
      flipped (any (has_id id) s.entries)
      ∙ sym (
          ap (λ b. if b then record (view s) { active = some id } else view s)
            (is_some-find_entry id s.entries))
    where
      flipped :
          (b : Bool)
          → view (if not b then s else activated c os (some id) s)
            ≡ (if b then record (view s) { active = some id } else view s)
      flipped true = refl
      flipped false = refl

  effect-view :
      (op : Op) (s : RoutingStore)
      → IsUnused os op s
      → view (effect c os op s) ≡ meaning c os op (view s)
  unfolding new_entry
  effect-view (add_op p src) s unused =
      added-view (stamp os.now (new_entry os.uuid p src)) s
        (validate_entry c.codec (new_entry os.uuid p src)) unused
  effect-view (remove_op id) s unused = removed-view id s
  effect-view (set_active_op none) s unused = refl
  effect-view (set_active_op (some id)) s unused = activated-view id s
  effect-view (update_op id p) s unused = updated-view id p s (validate c.codec p)

  -- On every branch, and whatever fails in the directory, an operation does to the store in memory what
  -- it means for the function from ids to entries, given that a fresh UUID is not in use.
  pub run_op-view :
      (op : Op) (s : RoutingStore) (d : Disk)
      → IsUnused os op s
      → view (run_op c os op s d).0 ≡ meaning c os op (view s)
  run_op-view op s d unused = ap view (run_op-effect c os op s d) ∙ effect-view op s unused

-- ===== src/Store/Invariant.antt =====
-- src-tauri/src/config/routing_store.rs: that each operation keeps a store well formed.
use mathlib.Core.Path.{subst}
use kwik_proxy_secure.Prelude.{
  if-holds, ℕ, Text, text_eq, any, true, false, not, List, [], ◌∷◌, ◌++◌, Option, none, some,
  Result, ok, err, ◌≡◌, inl, inr, refl, sym, ◌∙◌, arith, All-append, Bool-cases, if◌then◌else◌,
  is_some_and, >>-ok, length, ◌==◌, ensure->>-ok,
}
use kwik_proxy_secure.Profile
use kwik_proxy_secure.Profile.{
  Codec, RoutingProfile, RoutingProfileEntry, ProfileSource, static, autorouting, validate,
  validate_entry, new_entry, check_source, bad_id,
}
use kwik_proxy_secure.Store.{
  RoutingStore, Disk, Os, EntryCodec, has_id, retain_others, change_entry, stamp, refreshed, pushed,
  retained, is_active, changed,
}
use kwik_proxy_secure.Store.Keys.{
  text_eq-true, text_eq_symm, any-append, HasDistinctIds-append, IsFresh,
}
use kwik_proxy_secure.Store.Changes.{
  change_entry-HasDistinctIds, retain_others-IsFresh, change_entry-All,
  retain_others-HasDistinctIds, any-retain_others, any-change_entry, retain_others-All,
}
use kwik_proxy_secure.Store.Loading.{IsAccepted, IsKnown, IsStore}
use kwik_proxy_secure.Store.Effects.{
  Op, add_op, remove_op, set_active_op, update_op, run_op, effect, if_valid, new_of, run_op-effect,
}

-- The fresh UUID of an operation that adds is not in use.
abbrev pub IsUnused : Os → Op → RoutingStore → Type 0
IsUnused os (add_op p src) s = IsFresh os.uuid s.entries
IsUnused os (remove_op id) s = Unit
IsUnused os (set_active_op id) s = Unit
IsUnused os (update_op id p) s = Unit

module _ (c : EntryCodec) where
  refreshed-IsAccepted :
      (now : ℕ) (p : RoutingProfile) (e : RoutingProfileEntry)
      → validate c.codec p ≡ ok tt
      → IsAccepted c e
      → IsAccepted c (refreshed now p e)
  unfolding validate_entry
  refreshed-IsAccepted now p e good h =
      let (id_ok, rest) = ensure->>-ok (c.codec.is_uuid e.id) bad_id _ h in
      let (_, source_ok) =
        >>-ok (validate c.codec e.profile) (check_source c.codec e.source) rest in
      rw (id_ok, good) source_ok

  IsKnown-append :
      (es : List RoutingProfileEntry) (e : RoutingProfileEntry) (o : Option Text)
      → IsKnown es o
      → IsKnown (es ++ e ∷ []) o
  IsKnown-append es e none h = tt
  IsKnown-append es e (some id) h = ground (arith, h, any-append id es e)

  IsKnown-change_entry :
      (f : RoutingProfileEntry → RoutingProfileEntry)
      → ((e : RoutingProfileEntry) → (f e).id ≡ e.id)
      → (id : Text) (es : List RoutingProfileEntry) (o : Option Text) → IsKnown es o
      → IsKnown (change_entry f id es) o
  IsKnown-change_entry f keeps id es none h = tt
  IsKnown-change_entry f keeps id es (some k) h = any-change_entry f keeps k id es ∙ h

  IsKnown-retain_others :
      (id : Text) (es : List RoutingProfileEntry) (o : Option Text)
      → is_some_and (λ a. text_eq a id) o ≡ false
      → IsKnown es o
      → IsKnown (retain_others id es) o
  IsKnown-retain_others id es none other h = tt
  IsKnown-retain_others id es (some k) other h =
      ground (arith, h, any-retain_others k id es, text_eq_symm id k)

module _ (c : EntryCodec) (os : Os) where
  added-IsStore :
      (p : RoutingProfile) (src : ProfileSource) (s : RoutingStore)
      (r : Result Profile.Error (Unit {0}))
      → validate_entry c.codec (new_of c os p src) ≡ r
      → IsFresh os.uuid s.entries
      → IsStore c s
      → IsStore c (if_valid r s (pushed c os s (stamp os.now (new_of c os p src))))
  unfolding new_entry validate_entry
  added-IsStore p src s (err e) h fresh hs = hs
  added-IsStore p src s (ok _) h fresh hs = record {
    valid = All-append _ s.entries _ hs.valid (h, tt);
    distinct = HasDistinctIds-append s.entries _ hs.distinct fresh;
    known = IsKnown-append c s.entries _ s.active_id hs.known;
  }

  IsFresh-active :
      (id : Text) (es : List RoutingProfileEntry) (o : Option Text)
      → IsFresh id es
      → IsKnown es o
      → is_some_and (λ a. text_eq a id) o ≡ false
  IsFresh-active id es none fresh h = refl
  IsFresh-active id es (some a) fresh h = elim (Bool-cases (text_eq a id)) [
    | inl same ↦
        let here : any (has_id id) es ≡ true =
          subst (λ x. any (has_id x) es ≡ true) (text_eq-true a id same) h in
        ground (arith, here, fresh)
    | inr other ↦ other
  ]

  retained-IsStore :
      (id : Text) (s : RoutingStore)
      → is_active c os id s ≡ false
      → IsStore c s
      → IsStore c (retained c os id s)
  retained-IsStore id s other hs = record {
    valid = retain_others-All (IsAccepted c) id s.entries hs.valid;
    distinct = retain_others-HasDistinctIds id s.entries hs.distinct;
    known = IsKnown-retain_others c id s.entries s.active_id other hs.known;
  }

  removed-IsStore :
      (id : Text) (s : RoutingStore) → IsStore c s → IsStore c (effect c os (remove_op id) s)
  removed-IsStore id s hs =
      if-holds (IsStore c) (length (retain_others id s.entries) == length s.entries) _ _
        (λ same.
          let fresh : IsFresh id s.entries =
            ground (arith, same, retain_others-IsFresh id s.entries) in
          retained-IsStore id s (IsFresh-active id s.entries s.active_id fresh hs.known) hs)
        (λ shorter.
          if-holds (IsStore c) (is_active c os id s) _ _
            (λ active. record {
              valid = retain_others-All (IsAccepted c) id s.entries hs.valid;
              distinct = retain_others-HasDistinctIds id s.entries hs.distinct;
              known = tt;
            })
            (λ other. retained-IsStore id s other hs))

  updated-IsStore :
      (id : Text) (p : RoutingProfile) (s : RoutingStore) (r : Result Profile.Error (Unit {0}))
      → validate c.codec p ≡ r
      → IsStore c s
      → IsStore c
          (if_valid r s (if not (any (has_id id) s.entries) then s else changed c os id p s))
  updated-IsStore id p s (err e) h hs = hs
  updated-IsStore id p s (ok _) h hs =
      if-holds (IsStore c) (not (any (has_id id) s.entries)) _ _ (λ gone. hs)
        (λ there. record {
          valid =
              change_entry-All (refreshed os.now p) (λ e. refl) (IsAccepted c) id s.entries
                (λ e. refreshed-IsAccepted c os.now p e h) hs.valid;
          distinct =
              change_entry-HasDistinctIds (refreshed os.now p) (λ e. refl) id s.entries hs.distinct;
          known =
              IsKnown-change_entry c (refreshed os.now p) (λ e. refl) id s.entries s.active_id
                hs.known;
        })

  pub effect-IsStore :
      (op : Op) (s : RoutingStore) → IsUnused os op s → IsStore c s → IsStore c (effect c os op s)
  effect-IsStore (add_op p src) s fresh hs = added-IsStore p src s _ refl fresh hs
  effect-IsStore (remove_op id) s fresh hs = removed-IsStore id s hs
  effect-IsStore (set_active_op none) s fresh hs = record {
    valid = hs.valid;
    distinct = hs.distinct;
    known = tt;
  }
  effect-IsStore (set_active_op (some id)) s fresh hs =
      if-holds (IsStore c) (not (any (has_id id) s.entries)) _ _ (λ gone. hs)
        (λ there. record {
          valid = hs.valid;
          distinct = hs.distinct;
          known = ground (arith, there);
        })
  effect-IsStore (update_op id p) s fresh hs = updated-IsStore id p s _ refl hs

  pub run_op-IsStore :
      (op : Op) (s : RoutingStore) (d : Disk)
      → IsUnused os op s
      → IsStore c s
      → IsStore c (run_op c os op s d).0
  run_op-IsStore op s d unused hs =
      subst (IsStore c) (sym (run_op-effect c os op s d)) (effect-IsStore op s unused hs)

-- ===== src/Tun/Identity.antt =====
-- src-tauri/src/bin/kwik_helper/tun.rs: what an adapter that was found is known to be.
use mathlib.Core.Path.{subst}
use kwik_proxy_secure.Net.{Std}
use kwik_proxy_secure.Prelude.{
  ℕ, zero, suc, ◌+◌, Text, text_eq, text_eq_iff, Bool, true, false, ◌&&◌, List, [], ◌∷◌, Option,
  none, some, Result, ok, err, ◌>>=◌, ◌==◌, ◌≡◌, ◌≢◌, refl, sym, ap, ◌∙◌, arith, inl, inr,
  Bool-cases, Option-cases, Member, keep, is_some, starts_with,
}
use kwik_proxy_secure.Tun.{
  Adapters, Error, IfRow, TunCandidate, OwnedTunInterface, wide_z_to_string, owned_rows,
  scan_owned_interfaces, luid_from_index, verify_candidate_identity, single_match,
  find_owned_tun_interface, search_attempts, current_tun_interface_index, tun_name_prefix,
  if_oper_status_up, max_attempts,
}

module _ (std : Std) where
  -- A row that is up, bears the alias, and whose identity Windows confirms.
  pub record IsOwnAdapter (os : Adapters) (k : ℕ) (alias : Text) (i : OwnedTunInterface)
      : Type 0 where
    pub rows : List IfRow
    pub shown : os.table k ≡ some rows
    pub row : IfRow
    pub listed : Member row rows
    pub is_up : row.oper_status ≡ if_oper_status_up
    pub is_named : wide_z_to_string std row.alias ≡ alias
    pub has_prefix : starts_with alias tun_name_prefix ≡ true
    pub same_index : row.if_index ≡ i.if_index
    pub same_luid : row.luid ≡ i.luid
    pub converts : os.luid_of_index k i.if_index ≡ some i.luid
    pub has_index : i.if_index ≢ 0
    pub has_luid : i.luid ≢ 0

  -- A candidate is a row that is up and bears the prefix.
  record IsCandidate (rows : List IfRow) (c : TunCandidate) : Type 0 where
    row : IfRow
    listed : Member row rows
    is_up : row.oper_status ≡ if_oper_status_up
    is_named : wide_z_to_string std row.alias ≡ c.alias
    has_prefix : starts_with c.alias tun_name_prefix ≡ true
    same_index : row.if_index ≡ c.if_index
    same_luid : row.luid ≡ c.luid

  later_row :
      (r : IfRow) (rows : List IfRow) (c : TunCandidate)
      → IsCandidate rows c
      → IsCandidate (r ∷ rows) c
  later_row r rows c x = record {
    row = x.row;
    listed = inr x.listed;
    is_up = x.is_up;
    is_named = x.is_named;
    has_prefix = x.has_prefix;
    same_index = x.same_index;
    same_luid = x.same_luid;
  }

  abbrev wanted : IfRow → Bool
  wanted r =
      (r.oper_status == if_oper_status_up)
      && starts_with (wide_z_to_string std r.alias) tun_name_prefix

  abbrev candidate : IfRow → TunCandidate
  candidate r = record {
    if_index = r.if_index;
    luid = r.luid;
    alias = wide_z_to_string std r.alias;
  }

  first-IsCandidate :
      (r : IfRow) (rows : List IfRow) → wanted r ≡ true → IsCandidate (r ∷ rows) (candidate r)
  first-IsCandidate r rows up = record {
    row = r;
    listed = inl refl;
    is_up = ground arith;
    is_named = refl;
    has_prefix = ground arith;
    same_index = refl;
    same_luid = refl;
  }

  wanted-Member :
      (r : IfRow) (rows : List IfRow) (c : TunCandidate)
      → wanted r ≡ true
      → ((Member c (owned_rows std rows)) → IsCandidate rows c)
      → Member c (candidate r ∷ owned_rows std rows)
      → IsCandidate (r ∷ rows) c
  wanted-Member r rows c up deeper (inl same) =
      subst (IsCandidate (r ∷ rows)) same (first-IsCandidate r rows up)
  wanted-Member r rows c up deeper (inr m) = later_row r rows c (deeper m)

  owned_taken :
      (r : IfRow) (rows : List IfRow)
      → wanted r ≡ true
      → owned_rows std (r ∷ rows) ≡ candidate r ∷ owned_rows std rows
  unfolding owned_rows
  owned_taken r rows up = simp up refl

  owned_passed :
      (r : IfRow) (rows : List IfRow)
      → wanted r ≡ false
      → owned_rows std (r ∷ rows) ≡ owned_rows std rows
  unfolding owned_rows
  owned_passed r rows low = simp low refl

  owned_rows-IsCandidate :
      (rows : List IfRow) (c : TunCandidate) → Member c (owned_rows std rows) → IsCandidate rows c
  unfolding owned_rows
  owned_rows-IsCandidate [] c m = elim m [ ]
  owned_rows-IsCandidate (r ∷ rows) c m =
      let deeper = owned_rows-IsCandidate rows c in
      elim (Bool-cases (wanted r)) [
        | inl up ↦ wanted-Member r rows c up deeper (subst (Member c) (owned_taken r rows up) m)
        | inr low ↦ later_row r rows c (deeper (subst (Member c) (owned_passed r rows low) m))
      ]

  keep_taken :
      (test : TunCandidate → Bool) (x : TunCandidate) (xs : List TunCandidate)
      → test x ≡ true
      → keep test (x ∷ xs) ≡ x ∷ keep test xs
  unfolding keep
  keep_taken test x xs up = ground arith

  keep_passed :
      (test : TunCandidate → Bool) (x : TunCandidate) (xs : List TunCandidate)
      → test x ≡ false
      → keep test (x ∷ xs) ≡ keep test xs
  unfolding keep
  keep_passed test x xs low = ground arith

  keep-Member :
      (test : TunCandidate → Bool) (cs : List TunCandidate) (c : TunCandidate)
      → Member c (keep test cs)
      → Member c cs × (test c ≡ true)
  unfolding keep
  keep-Member test [] c m = elim m [ ]
  keep-Member test (x ∷ xs) c m =
      let deeper = keep-Member test xs c in
      elim (Bool-cases (test x)) [
        | inl up ↦ kept up deeper (subst (Member c) (keep_taken test x xs up) m)
        | inr low ↦
            (let (there, holds) = deeper (subst (Member c) (keep_passed test x xs low) m) in
              (inr there, holds))
      ]
    where
      kept :
          test x ≡ true
          → (Member c (keep test xs) → Member c xs × (test c ≡ true))
          → Member c (x ∷ keep test xs)
          → Member c (x ∷ xs) × (test c ≡ true)
      kept up deeper (inl same) = (inl same, ap test (sym same) ∙ up)
      kept up deeper (inr m) = let (there, holds) = deeper m in (inr there, holds)

  module _ (os : Adapters) where
    single_match_lem :
        (k : ℕ) (cs : List TunCandidate) (i : OwnedTunInterface)
        → single_match std os k cs ≡ ok (some i)
        → (c : TunCandidate) × (cs ≡ c ∷ [])
          × (c.if_index ≡ i.if_index)
          × (c.luid ≡ i.luid)
          × (os.luid_of_index k i.if_index ≡ some i.luid)
          × (i.if_index ≢ 0)
          × (i.luid ≢ 0)
    unfolding single_match luid_from_index verify_candidate_identity
    single_match_lem k [] i e = absurd (ground arith)
    single_match_lem k (c ∷ []) i e =
        (c, refl, ground arith, ground arith, ground arith, ground arith, ground arith)
    single_match_lem k (c ∷ d ∷ rest) i e = absurd (ground arith)

    found-IsOwnAdapter :
        (k : ℕ) (alias : Text) (rows : List IfRow) (i : OwnedTunInterface)
        → os.table k ≡ some rows
        → single_match std os k (keep (λ c. text_eq c.alias alias) (owned_rows std rows))
          ≡ ok (some i)
        → IsOwnAdapter os k alias i
    found-IsOwnAdapter k alias rows i shown e =
        let (c, only, index, luid, converts, has_index, has_luid) =
          single_match_lem k (keep (λ c. text_eq c.alias alias) (owned_rows std rows)) i e in
        let (there, named) =
          keep-Member (λ c. text_eq c.alias alias) (owned_rows std rows) c
            (subst (Member c) (sym only) (inl refl)) in
        let x = owned_rows-IsCandidate rows c there in
        let same : c.alias ≡ alias = ground (arith, text_eq_iff c.alias alias) in
        record {
          rows = rows;
          shown = shown;
          row = x.row;
          listed = x.listed;
          is_up = x.is_up;
          is_named = x.is_named ∙ same;
          has_prefix = subst (λ a. starts_with a tun_name_prefix ≡ true) same x.has_prefix;
          same_index = x.same_index ∙ index;
          same_luid = x.same_luid ∙ luid;
          converts = converts;
          has_index = has_index;
          has_luid = has_luid;
        }

    find_lem :
        (k : ℕ) (alias : Text) (i : OwnedTunInterface)
        → find_owned_tun_interface std os k alias ≡ ok (some i)
        → IsOwnAdapter os k alias i
    unfolding find_owned_tun_interface scan_owned_interfaces
    find_lem k alias i e = elim (Option-cases (os.table k)) [
      | inl broken ↦ absurd (ground arith)
      | inr (rows, shown) ↦ found-IsOwnAdapter k alias rows i shown (ground arith)
    ]

    search_lem :
        (left k : ℕ) (alias : Text) (i : OwnedTunInterface)
        → search_attempts std os left k alias ≡ ok (some i)
        → (j : ℕ) × (find_owned_tun_interface std os j alias ≡ ok (some i))
    unfolding search_attempts
    search_lem zero k alias i e = absurd (ground arith)
    search_lem (suc left) k alias i e =
        looked (find_owned_tun_interface std os k alias) refl (search_lem left (k + 1) alias i)
      where
        looked :
            (r : Result Error (Option OwnedTunInterface))
            → find_owned_tun_interface std os k alias ≡ r
            → (search_attempts std os left (k + 1) alias ≡ ok (some i)
                → (j : ℕ) × (find_owned_tun_interface std os j alias ≡ ok (some i)))
            → (j : ℕ) × (find_owned_tun_interface std os j alias ≡ ok (some i))
        looked (err x) seen deeper = absurd (ground arith)
        looked (ok none) seen deeper = deeper (ground arith)
        looked (ok (some l)) seen deeper = (k, ground arith)

    -- The adapter for which the kill switch opens its TUN permit is, at one look at the table, a row
    -- that is up, has exactly the alias asked for with the product's prefix, and has a nonzero index
    -- and LUID that Windows converts into one another.
    pub tun_interface-IsOwnAdapter :
        (expect : Bool) (device : Option Text) (i : OwnedTunInterface)
        → current_tun_interface_index std os expect device ≡ ok (some i)
        → (alias : Text) × (k : ℕ) × (device ≡ some alias) × IsOwnAdapter os k alias i
    unfolding current_tun_interface_index
    tun_interface-IsOwnAdapter false device i e = absurd (ground arith)
    tun_interface-IsOwnAdapter true none i e = absurd (ground arith)
    tun_interface-IsOwnAdapter true (some alias) i e =
        let (k, found) = search_lem max_attempts 0 alias i (ground arith) in
        (alias, k, refl, find_lem k alias i found)

    search_finds : (left k : ℕ) (alias : Text) → search_attempts std os left k alias ≢ ok none
    unfolding search_attempts
    search_finds zero k alias = ground arith
    search_finds (suc left) k alias =
        looked (find_owned_tun_interface std os k alias) (search_finds left (k + 1) alias)
      where
        looked :
            (r : Result Error (Option OwnedTunInterface))
            → search_attempts std os left (k + 1) alias ≢ ok none
            → (r >>= λ found. elim found [
              | some interface ↦ ok (some interface)
              | none ↦ search_attempts std os left (k + 1) alias
            ])
              ≢ ok none
        looked (err x) deeper = ground arith
        looked (ok none) deeper = deeper
        looked (ok (some i)) deeper = ground arith

    -- An interface is returned just when one was expected.
    pub tun_interface-expected :
        (expect : Bool) (device : Option Text) (found : Option OwnedTunInterface)
        → current_tun_interface_index std os expect device ≡ ok found
        → expect ≡ is_some found
    unfolding current_tun_interface_index
    tun_interface-expected false device none e = refl
    tun_interface-expected false device (some i) e = absurd (ground arith)
    tun_interface-expected true device (some i) e = refl
    tun_interface-expected true none none e = absurd (ground arith)
    tun_interface-expected true (some alias) none e =
        let finds = search_finds max_attempts 0 alias in absurd (ground arith)

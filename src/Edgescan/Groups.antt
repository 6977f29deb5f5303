-- ===== src/Edgescan/Groups.antt =====
-- internal/edgescan/group_expand.go: ExpandGroupCandidates, which adds the other legs of the groups that
-- the first stage touches. A cap below 0 counts as 0 there.
pub mod Sound
pub mod Expand
use poly_asian_data.Base.{
  ℕ, zero, suc, ◌+◌, String, Bool, true, false, not, ◌&&◌, ◌||◌, List, [], ◌∷◌, ◌++◌, Option, none,
  some, leb, if◌then◌else◌, is_empty, str_eq, is_some, keep,
}
use poly_asian_data.Base.Dict.{Dict, insert}
use poly_asian_data.Edgescan.{Candidate, condition_of, marked}

-- `seen`, `cands` and `added`
pub record Expanded (F : Type 0) : Type 0 where
  pub seen : Dict Bool
  pub cands : List (Candidate F)
  pub added : ℕ

abbrev is_among : String → List String → Bool
is_among k [] = false
is_among k (j ∷ ks) = str_eq j k || is_among k ks

module _ {F : Type 0} where
  -- `byGroup[gid]`, for the values of ByCond in the order in which they are walked.
  abbrev pub members_of : String → List (Candidate F) → List (Candidate F)
  members_of gid pool =
      keep
        (λ c.
          is_some (condition_of c)
          && not (is_empty c.neg_risk_group_id)
          && str_eq c.neg_risk_group_id gid)
        pool

  -- `seen[id] = true` and the append
  abbrev pub append_seen : String → Candidate F → Expanded F → Expanded F
  append_seen id c e = record {
    seen = insert id true e.seen;
    cands = e.cands ++ c ∷ [];
    added = e.added;
  }

  -- A candidate of the first stage.
  abbrev pub add_first : Candidate F → Option String → Expanded F → Expanded F
  add_first c none e = e
  add_first c (some id) e = if is_empty id || marked id e.seen then e else append_seen id c e

  unfoldable pub add_firsts : List (Candidate F) → Expanded F → Expanded F
  add_firsts [] e = e
  add_firsts (c ∷ cs) e = add_firsts cs (add_first c (condition_of c) e)

  abbrev pub count_one : Expanded F → Expanded F
  count_one e = record { seen = e.seen; cands = e.cands; added = e.added + 1 }

  -- A leg of a group. After a `break` at the cap no other leg is taken, for the count does not shrink.
  abbrev pub add_leg : ℕ → Candidate F → Option String → Expanded F → Expanded F
  add_leg cap c none e = e
  add_leg cap c (some id) e =
      if leb cap e.added || marked id e.seen then e else count_one (append_seen id c e)

  unfoldable pub add_legs : ℕ → List (Candidate F) → Expanded F → Expanded F
  add_legs cap [] e = e
  add_legs cap (c ∷ cs) e = add_legs cap cs (add_leg cap c (condition_of c) e)

  unfoldable pub add_groups : ℕ → List (Candidate F) → List String → Expanded F → Expanded F
  add_groups cap pool [] e = e
  add_groups cap pool (gid ∷ gids) e =
      add_groups cap pool gids (add_legs cap (members_of gid pool) e)

  abbrev touch : Candidate F → List String → List String
  touch c gids =
      if not (is_some (condition_of c))
        || not c.neg_risk
        || is_empty c.neg_risk_group_id
        || is_among c.neg_risk_group_id gids
      then gids
      else c.neg_risk_group_id ∷ gids

  -- The keys of `groupsNeeded`.
  abbrev pub groups_needed : List (Candidate F) → List String
  groups_needed [] = []
  groups_needed (c ∷ cs) = touch c (groups_needed cs)

  abbrev pub nothing_seen : Expanded F
  nothing_seen = record { seen = []; cands = []; added = 0 }

  -- `ExpandGroupCandidates`, with the order in which `groupsNeeded` is walked and the values of ByCond in
  -- the order in which they are.
  unfoldable pub expand_group_candidates :
      (List String → List String) → List (Candidate F) → List (Candidate F) → ℕ → Expanded F
  expand_group_candidates walk candidates pool expand_cap =
      add_groups expand_cap pool (walk (groups_needed candidates))
        (add_firsts candidates nothing_seen)

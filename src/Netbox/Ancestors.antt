-- ===== src/Netbox/Ancestors.antt =====
-- The loop of `LocationAncestors`, netbox-sim/internal/state/store.go.
use cirrus_sim.Base.{
  refl, nat_eq, ℕ, [], ◌∷◌, arith, List, ◌≡◌, ◌<◌, length, suc, some, ◌≤◌, ◌⊎◌, if◌then◌else◌, ◌==◌,
  Bool-cases, none, contains, true, false, inl, inr, ◌≢◌, Option-cases, ◌∙◌, ap, zero,
}
use cirrus_sim.Base.Dict.{Dict, lookup}
use cirrus_sim.Base.Int64.{Int64}
use cirrus_sim.Netbox.Types.{Store, Location}
use cirrus_sim.Netbox.Store.{climb, location_ancestors, chain_onto}

-- The locations that the loop has not met.
unseen : List Int64 → Dict Int64 Location → ℕ
unseen seen [] = 0
unseen seen ((k, _) ∷ locs) =
    let rest = unseen seen locs in if contains seen k then rest else suc rest

unseen-le :
    (id : Int64) (seen : List Int64) (locs : Dict Int64 Location)
    → unseen (id ∷ seen) locs ≤ unseen seen locs
unfolding unseen
unseen-le id seen [] = omega arith
unseen-le id seen ((k, l) ∷ locs) = ground (arith, unseen-le id seen locs)

unseen-lt :
    (id : Int64) (seen : List Int64) (locs : Dict Int64 Location) (loc : Location)
    → lookup id locs ≡ some loc
    → contains seen id ≡ false
    → unseen (id ∷ seen) locs < unseen seen locs
unfolding unseen lookup
unseen-lt id seen [] loc e h = ground arith
unseen-lt id seen ((k, l) ∷ locs) loc e h = elim (Bool-cases (k == id)) [
  | inl same ↦ ground (arith, same, unseen-le id seen locs)
  | inr other ↦ ground (arith, other, unseen-lt id seen locs loc (ground arith) h)
]

unseen-nil : (locs : Dict Int64 Location) → unseen [] locs ≡ length locs
unfolding unseen
unseen-nil [] = refl
unseen-nil ((k, l) ∷ locs) = ground (arith, unseen-nil locs)

-- The chain that begins at `id`: each location is the parent of the one before it, no ID comes twice
-- or is in `seen`, and the chain ends where the parent is 0, is missing or has been met.
abbrev pub IsChain : Dict Int64 Location → List Int64 → Int64 → List Location → Type 0
IsChain locs seen id [] = (id ≡ 0) ⊎ (lookup id locs ≡ none) ⊎ (contains seen id ≡ true)
IsChain locs seen id (loc ∷ chain) =
    (id ≢ 0)
    × (contains seen id ≡ false)
    × (lookup id locs ≡ some loc)
    × IsChain locs (id ∷ seen) loc.parent_id chain

climb-stop :
    (fuel : ℕ) (id : Int64) (seen : List Int64) (locs : Dict Int64 Location)
    → IsChain locs seen id []
    → climb (suc fuel) id seen locs ≡ some []
unfolding climb
climb-stop fuel id seen locs h = ground (arith, h)

climb-onto :
    (fuel : ℕ) (id : Int64) (seen : List Int64) (locs : Dict Int64 Location) (loc : Location)
    → lookup id locs ≡ some loc
    → (id == 0) ≡ false
    → contains seen id ≡ false
    → climb (suc fuel) id seen locs ≡ chain_onto loc (climb fuel loc.parent_id (id ∷ seen) locs)
unfolding climb
climb-onto fuel id seen locs loc e nz new = ground (arith, e, nz, new)

climb-IsChain :
    (fuel : ℕ) (id : Int64) (seen : List Int64) (locs : Dict Int64 Location)
    → unseen seen locs < fuel
    → (chain : List Location) × (climb fuel id seen locs ≡ some chain)
      × IsChain locs seen id chain
      × (length chain ≤ unseen seen locs)
climb-IsChain zero id seen locs h = ground arith
climb-IsChain (suc fuel) id seen locs h = elim (Bool-cases (id == 0)) [
  | inl zero' ↦
      ([], climb-stop fuel id seen locs (inl (ground arith)), inl (ground arith), omega arith)
  | inr nz ↦ elim (Bool-cases (contains seen id)) [
    | inl met ↦ ([], climb-stop fuel id seen locs (inr (inr met)), inr (inr met), omega arith)
    | inr new ↦ elim (Option-cases (lookup id locs)) [
      | inl missing ↦
          ([], climb-stop fuel id seen locs (inr (inl missing)), inr (inl missing), omega arith)
      | inr (loc, e) ↦
          let less = unseen-lt id seen locs loc e new in
          let (chain, c, ok', short) =
            climb-IsChain fuel loc.parent_id (id ∷ seen) locs (omega (arith, less)) in
          (
            loc ∷ chain,
            climb-onto fuel id seen locs loc e nz new ∙ ap (chain_onto loc) c,
            ((λ p. ground arith), new, e, ok'),
            omega (arith, short, less),
          )
    ]
  ]
]

-- LocationAncestors ends, whatever the locations are and even where their parents form a cycle, within
-- one round more than there are locations. It gives the location and then parent after parent, no
-- ID twice, up to where the parent is 0, is missing or has been met, and no more of them than there
-- are locations.
pub location_ancestors-IsChain :
    (id : Int64) (s : Store)
    → (chain : List Location) × (location_ancestors id s ≡ some chain)
      × IsChain s.locations [] id chain
      × (length chain ≤ length s.locations)
unfolding location_ancestors
location_ancestors-IsChain id s =
    let all = unseen-nil s.locations in
    let (chain, c, good, short) =
      climb-IsChain (suc (length s.locations)) id [] s.locations (omega (arith, all)) in
    (chain, c, good, omega (arith, short, all))

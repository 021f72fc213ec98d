-- ===== src/Netbox/Counts.antt =====
-- The counts and the filtered lists of netbox-sim/internal/state/store.go.
use cirrus_sim.Base.{
  true, refl, nat_eq, [], ◌∷◌, arith, Bool, ◌≢◌, List, ◌≡◌, keep_if, length, ap, ◌==◌, ◌||◌, ◌&&◌,
}
use cirrus_sim.Base.Dict.{values}
use cirrus_sim.Base.Int64.{Int64}
use cirrus_sim.Netbox.Types.{Store, Rack, Device}
use cirrus_sim.Netbox.Store.{list_racks, list_devices, count_devices_in_rack, count_racks_in_site}

keep_if-congr :
    {A : Type 0} (p q : A → Bool) (xs : List A)
    → ((x : A) → p x ≡ q x)
    → keep_if p xs ≡ keep_if q xs
keep_if-congr p q [] h = refl
keep_if-congr p q (x ∷ xs) h = ground (arith, h x, keep_if-congr p q xs h)

-- For an ID other than 0, the devices counted in a rack are those that the list of that rack's devices
-- of any role has, and the racks counted in a site are those that the list of that site's racks has.
pub counts-lists :
    (id : Int64) (s : Store)
    → id ≢ 0
    → (count_devices_in_rack id s ≡ length (list_devices id "" s))
      × (count_racks_in_site id s ≡ length (list_racks id s))
unfolding count_devices_in_rack count_racks_in_site list_devices list_racks
counts-lists id s nz = (
  ap length (
      keep_if-congr {A = Device} (λ d. d.rack_id == id) (λ d. (id == 0 || d.rack_id == id) && true)
        (values s.devices) (λ d. ground (arith, nz))),
  ap length (
      keep_if-congr {A = Rack} (λ r. r.site_id == id) (λ r. id == 0 || r.site_id == id)
        (values s.racks) (λ r. ground (arith, nz))),
)

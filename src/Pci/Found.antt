-- ===== src/Pci/Found.antt =====
-- What the searches of pci.c find.
use mathlib.Core.Path.{subst}
use os.Base.{
  ltb, ℕ, zero, suc, ◌+◌, ◌%◌, ◌≤◌, ◌<◌, ◌≡◌, refl, sym, ap, ◌∙◌, ◌⊎◌, inl, inr, Bool, true, false,
  Option, none, some, out_of_fuel, arith, ◌==◌, if◌then◌else◌, Bool-cases,
}
use os.Pci.{
  max_buses, max_devices_per_bus, max_functions, Location, first, has_id, has_class, on_device,
  on_bus, pci_find_device_by_id, any_bus, pci_find_device_by_class,
}

-- The first round that returns, or none of them.
abbrev pub FirstResult : (ℕ → Option Location) → ℕ → ℕ → Option Location → Type 0
FirstResult body i n none = (j : ℕ) → i ≤ j → j < i + n → body j ≡ none
FirstResult body i n (some l) =
    (k : ℕ) × (i ≤ k) × (k < i + n) × (body k ≡ some l) × ((j : ℕ) → i ≤ j → j < k → body j ≡ none)

first_lem : (body : ℕ → Option Location) (i n : ℕ) → FirstResult body i n (first body i n)
unfolding first
first_lem body i zero = λ j lo hi. absurd (omega arith)
first_lem body i (suc n) =
    first_from (body i) (first body (i + 1) n) refl (first_lem body (i + 1) n)
  where
    first_from :
        (o r : Option Location)
        → body i ≡ o
        → FirstResult body (i + 1) n r
        → FirstResult body i (suc n) (elim o [ none ↦ r | some l ↦ some l ])
    first_from (some l) r e d = (i, omega arith, omega arith, e, λ j lo hi. absurd (omega arith))
    first_from none none e d = λ j lo hi. elim (Bool-cases (j == i)) [
      | inl same ↦ ap body (ground arith) ∙ e
      | inr ne ↦ d j (ground arith) (omega arith)
    ]
    first_from none (some l) e (k, lo, hi, found, before) = (
      k,
      omega arith,
      omega arith,
      found,
      λ j above below. elim (Bool-cases (j == i)) [
        | inl same ↦ ap body (ground arith) ∙ e
        | inr ne ↦ before j (ground arith) below
      ],
    )

-- An earlier function of the same bus.
abbrev pub Sooner : ℕ → ℕ → ℕ → ℕ → Type 0
Sooner d' f' d f = (d' < d) ⊎ ((d' ≡ d) × (f' < f))

module _ (matches : Location → Bool) where
  abbrev pub DeviceResult : ℕ → ℕ → Option Location → Type 0
  DeviceResult b d none = (f : ℕ) → f < max_functions → matches (b, d, f) ≡ false
  DeviceResult b d (some l) =
      (f : ℕ) × (f < max_functions)
      × (l ≡ (b, d, f))
      × (matches l ≡ true)
      × ((g : ℕ) → g < f → matches (b, d, g) ≡ false)

  -- One round of the loop over the functions.
  one : ℕ → ℕ → ℕ → Option Location
  one b d f = if matches (b, d, f) then some (b, d, f) else none

  one-none : (b d f : ℕ) → one b d f ≡ none → matches (b, d, f) ≡ false
  unfolding one
  one-none b d f e = ground arith

  one-some :
      (b d f : ℕ) (l : Location) → one b d f ≡ some l → (l ≡ (b, d, f)) × (matches (b, d, f) ≡ true)
  unfolding one
  one-some b d f l e = ground arith

  on_device_lem : (b d : ℕ) → DeviceResult b d (on_device matches b d)
  unfolding on_device one
  on_device_lem b d = device_from (on_device matches b d) (first_lem (one b d) 0 max_functions)
    where
      device_from :
          (o : Option Location) → FirstResult (one b d) 0 max_functions o → DeviceResult b d o
      device_from none r = λ f lt. one-none b d f (r f (omega arith) (omega arith))
      device_from (some l) (f, lo, hi, found, before) =
          let (e, m) = one-some b d f l found in
          (f, omega arith, e, ap matches e ∙ m, λ g lt. one-none b d g (before g (omega arith) lt))

  abbrev pub BusResult : ℕ → Option Location → Type 0
  BusResult b none =
      (d f : ℕ) → d < max_devices_per_bus → f < max_functions → matches (b, d, f) ≡ false
  BusResult b (some l) =
      (d : ℕ) × (f : ℕ) × (d < max_devices_per_bus)
      × (f < max_functions)
      × (l ≡ (b, d, f))
      × (matches l ≡ true)
      × ((d' f' : ℕ) → f' < max_functions → Sooner d' f' d f → matches (b, d', f') ≡ false)

  on_bus_lem : (b : ℕ) → BusResult b (on_bus matches b)
  unfolding on_bus
  on_bus_lem b = bus_from (on_bus matches b) (first_lem (on_device matches b) 0 max_devices_per_bus)
    where
      nothing :
          (d f : ℕ) → on_device matches b d ≡ none → f < max_functions → matches (b, d, f) ≡ false
      nothing d f e lt = subst (DeviceResult b d) e (on_device_lem b d) f lt

      bus_from :
          (o : Option Location)
          → FirstResult (on_device matches b) 0 max_devices_per_bus o
          → BusResult b o
      bus_from none r = λ d f ltd ltf. nothing d f (r d (omega arith) (omega arith)) ltf
      bus_from (some l) (d, lo, hi, found, before) =
          let (f, lt, e, m, prior) = subst (DeviceResult b d) found (on_device_lem b d) in
          (
            d,
            f,
            omega arith,
            lt,
            e,
            m,
            λ d' f' ltf sooner. elim sooner [
              | inl less ↦ nothing d' f' (before d' (omega arith) less) ltf
              | inr (same, less) ↦
                  subst (λ c. matches (b, c, f') ≡ false) (sym same) (prior f' less)
            ],
          )

-- What a search finds: the first function in order of bus, device and function number that matches,
-- or none if none does.
abbrev pub SearchResult : (Location → Bool) → Option Location → Type 0
SearchResult matches none =
    (b d f : ℕ)
    → b < max_buses
    → d < max_devices_per_bus
    → f < max_functions
    → matches (b, d, f) ≡ false
SearchResult matches (some l) =
    (b : ℕ) × (d : ℕ) × (f : ℕ) × (b < max_buses)
    × (d < max_devices_per_bus)
    × (f < max_functions)
    × (l ≡ (b, d, f))
    × (matches l ≡ true)
    × ((b' d' f' : ℕ)
        → d' < max_devices_per_bus
        → f' < max_functions
        → (b' < b) ⊎ ((b' ≡ b) × Sooner d' f' d f)
        → matches (b', d', f') ≡ false)

module _ (matches : Location → Bool) where
  nothing_on :
      (b d f : ℕ)
      → on_bus matches b ≡ none
      → d < max_devices_per_bus
      → f < max_functions
      → matches (b, d, f) ≡ false
  nothing_on b d f e = subst (BusResult matches b) e (on_bus_lem matches b) d f

  search_lem :
      (o : Option Location) → FirstResult (on_bus matches) 0 max_buses o → SearchResult matches o
  search_lem none r =
      λ b d f ltb ltd ltf. nothing_on b d f (r b (omega arith) (omega arith)) ltd ltf
  search_lem (some l) (b, lo, hi, found, before) =
      let (d, f, ltd, ltf, e, m, prior) =
        subst (BusResult matches b) found (on_bus_lem matches b) in
      (
        b,
        d,
        f,
        omega arith,
        ltd,
        ltf,
        e,
        m,
        λ b' d' f' ltd' ltf' sooner. elim sooner [
          | inl less ↦ nothing_on b' d' f' (before b' (omega arith) less) ltd' ltf'
          | inr (same, less) ↦
              subst (λ c. matches (c, d', f') ≡ false) (sym same) (prior d' f' ltf' less)
        ],
      )

-- pci_find_device_by_id looks at every function of every device on every bus: it finds one with the
-- given vendor and device numbers, and the first such in order of bus, device and function number,
-- or none if there is none.
pub pci_find_device_by_id_lem :
    (config : ℕ → ℕ) (vendor device : ℕ)
    → SearchResult (has_id config vendor device) (pci_find_device_by_id config vendor device)
unfolding pci_find_device_by_id
pci_find_device_by_id_lem config vendor device =
    search_lem (has_id config vendor device) (pci_find_device_by_id config vendor device)
      (first_lem (on_bus (has_id config vendor device)) 0 max_buses)

endless :
    (matches : Location → Bool) (b fuel : ℕ)
    → b < max_buses
    → ((c : ℕ) → c < max_buses → on_bus matches c ≡ none)
    → any_bus matches b fuel ≡ out_of_fuel
unfolding any_bus
endless matches b zero lt nowhere = refl
endless matches b (suc fuel) lt nowhere =
    let inside : ltb b max_buses ≡ true = ground arith in
    rw (inside, nowhere b lt, any_bus)
      (endless matches ((b + 1) % 0x100) fuel (omega arith) nowhere)

on_bus-none :
    (matches : Location → Bool) (b : ℕ) (o : Option Location)
    → BusResult matches b o
    → ((d f : ℕ) → d < max_devices_per_bus → f < max_functions → matches (b, d, f) ≡ false)
    → o ≡ none
on_bus-none matches b none r no_match = refl
on_bus-none matches b (some l) (d, f, ltd, ltf, e, m, prior) no_match =
    absurd (ground (arith, ap matches e, no_match d f ltd ltf))

-- If no function of any device on any bus has the given class, pci_find_device_by_class does not
-- return: whatever the fuel is, it runs out.
pub pci_find_device_by_class-endless :
    (config : ℕ → ℕ) (base sub fuel : ℕ)
    → ((b d f : ℕ)
        → b < max_buses
        → d < max_devices_per_bus
        → f < max_functions
        → has_class config base sub (b, d, f) ≡ false)
    → pci_find_device_by_class config base sub fuel ≡ out_of_fuel
unfolding pci_find_device_by_class
pci_find_device_by_class-endless config base sub fuel no_match =
    endless (has_class config base sub) 0 fuel (omega arith) (λ b lt.
      on_bus-none (has_class config base sub) b (on_bus (has_class config base sub) b)
        (on_bus_lem (has_class config base sub) b) (λ d f. no_match b d f lt))

-- ===== src/Klsi/Usb/Probe.antt =====
-- ps2klsi/driver.c: the devices that the driver claims, and the endpoints that it finds.
use ps2eth.Prelude.{
  ℕ, suc, ◌+◌, ◌≡◌, ◌≢◌, refl, ap, ◌∙◌, ◌↔◌, ◌⊎◌, inl, inr, Bool, true, false, some, List, [], ◌∷◌,
  arith, Bool-cases, get_elem?, if◌then◌else◌,
}
use ps2eth.Klsi.Usb.{
  UsbNames, Device, Endpoint, Endpoints, usb_klsi_probe, is_endpoint, note_endpoint, find_endpoints,
}

-- The driver claims a device exactly if it is the NetGear EA101 or the 3COM adapter, by vendor and
-- product.
pub usb_klsi_probe-claims :
    (d : Device)
    → (usb_klsi_probe (some d) ≡ 1) ↔ (
        ((d.id_vendor ≡ 0x0846) × (d.id_product ≡ 0x1001))
        ⊎ ((d.id_vendor ≡ 0x0565) × (d.id_product ≡ 0x0002)))
unfolding usb_klsi_probe
usb_klsi_probe-claims d = ground arith

-- `i` is the index, counted from `start`, of an endpoint of the kind.
pub IsAt : (Endpoint → Bool) → ℕ → List Endpoint → ℕ → Type 0
IsAt kind start eds i =
    (n : ℕ) × (e : Endpoint) × (i ≡ start + n) × (get_elem? eds n ≡ some e) × (kind e ≡ true)

unfoldable pub has_kind : (Endpoint → Bool) → List Endpoint → Bool
has_kind kind [] = false
has_kind kind (e ∷ es) = let rest = has_kind kind es in if kind e then true else rest

-- The index of the last endpoint of the kind, or `d`.
last_index : (Endpoint → Bool) → ℕ → List Endpoint → ℕ → ℕ
last_index kind i [] d = d
last_index kind i (e ∷ es) d = last_index kind (i + 1) es (if kind e then i else d)

last_index-none :
    (kind : Endpoint → Bool) (i : ℕ) (es : List Endpoint) (d : ℕ)
    → has_kind kind es ≡ false
    → last_index kind i es d ≡ d
unfolding last_index has_kind
last_index-none kind i [] d h = refl
last_index-none kind i (e ∷ es) d h = elim (Bool-cases (kind e)) [
  | inl b ↦ absurd (ground (arith, b, h))
  | inr b ↦ rw b (last_index-none kind (i + 1) es d (ground (arith, b, h)))
]

last_index-IsAt :
    (kind : Endpoint → Bool) (i : ℕ) (es : List Endpoint) (d : ℕ)
    → has_kind kind es ≡ true
    → IsAt kind i es (last_index kind i es d)
unfolding last_index has_kind IsAt
last_index-IsAt kind i [] d h = absurd (ground (arith, h))
last_index-IsAt kind i (e ∷ es) d h = elim (Bool-cases (has_kind kind es)) [
  | inl more ↦
      let t = last_index-IsAt kind (i + 1) es (if kind e then i else d) more in
      (suc t.0, t.1, t.2 ∙ omega arith, t.3, t.4)
  | inr no_more ↦ elim (Bool-cases (kind e)) [
    | inl b ↦ rw b (0, e, last_index-none kind (i + 1) es i no_more ∙ omega arith, refl, b)
    | inr b ↦ absurd (ground (arith, b, h, no_more))
  ]
]

module _ (k : UsbNames) where
  abbrev pub bulk_in : Endpoint → Bool
  bulk_in e = is_endpoint k k.dir_in k.xfer_bulk e

  abbrev pub bulk_out : Endpoint → Bool
  bulk_out e = is_endpoint k k.dir_out k.xfer_bulk e

  note_endpoint-epin :
      (i : ℕ) (e : Endpoint) (s : Endpoints)
      → (note_endpoint k i e s).epin ≡ (if bulk_in e then i else s.epin)
  unfolding note_endpoint
  note_endpoint-epin i e s = ground arith

  note_endpoint-epout :
      (i : ℕ) (e : Endpoint) (s : Endpoints)
      → k.dir_in ≢ k.dir_out
      → (note_endpoint k i e s).epout ≡ (if bulk_out e then i else s.epout)
  unfolding note_endpoint is_endpoint
  note_endpoint-epout i e s ne = ground arith

  find_endpoints-epin :
      (i : ℕ) (eds : List Endpoint) (s : Endpoints)
      → (find_endpoints k i eds s).epin ≡ last_index bulk_in i eds s.epin
  unfolding find_endpoints last_index
  find_endpoints-epin i [] s = refl
  find_endpoints-epin i (e ∷ es) s =
      find_endpoints-epin (i + 1) es (note_endpoint k i e s)
      ∙ ap (λ d. last_index bulk_in (i + 1) es d) (note_endpoint-epin i e s)

  find_endpoints-epout :
      (i : ℕ) (eds : List Endpoint) (s : Endpoints)
      → k.dir_in ≢ k.dir_out
      → (find_endpoints k i eds s).epout ≡ last_index bulk_out i eds s.epout
  unfolding find_endpoints last_index
  find_endpoints-epout i [] s ne = refl
  find_endpoints-epout i (e ∷ es) s ne =
      find_endpoints-epout (i + 1) es (note_endpoint k i e s) ne
      ∙ ap (λ d. last_index bulk_out (i + 1) es d) (note_endpoint-epout i e s ne)

  -- On an interface with a bulk endpoint for each direction, the endpoints that the loop notes for
  -- input and output are such endpoints.
  pub find_endpoints-IsAt :
      (eds : List Endpoint) (s : Endpoints)
      → k.dir_in ≢ k.dir_out
      → has_kind bulk_in eds ≡ true
      → has_kind bulk_out eds ≡ true
      → IsAt bulk_in 0 eds (find_endpoints k 0 eds s).epin
        × IsAt bulk_out 0 eds (find_endpoints k 0 eds s).epout
  find_endpoints-IsAt eds s ne i o = (
    rw (find_endpoints-epin 0 eds s) (last_index-IsAt bulk_in 0 eds s.epin i),
    rw (find_endpoints-epout 0 eds s ne) (last_index-IsAt bulk_out 0 eds s.epout o),
  )

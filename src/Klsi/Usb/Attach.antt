-- ===== src/Klsi/Usb/Attach.antt =====
-- ps2klsi/driver.c: how `usb_klsi_attach` ends, and what it has done by then.
use ps2eth.Prelude.{
  ℕ, suc, not, Bool, Option, if◌then◌else◌, ◌≡◌, ◌≢◌, ◌<◌, ◌⊎◌, ap, subst, true, false, some, none,
  pos, negsuc, refl, inl, inr, List, [], ◌∷◌, ◌++◌, arith, ◌==◌, Bool-cases, ℤ,
}
use ps2eth.Net.{EthAddr}
use ps2eth.Klsi.Usb.{
  UsbNames, Device, Descriptors, Firmware, Klsi, Call, open_control, control, open_pipe, netif_add,
  delay, Attached, null_access, failed, attached, kue_load_fw, configure, start_device,
  usb_klsi_attach, attach_with, attach_interface, is_zero, kue_write, kue_setword, kue_read_mac,
  kue_reset,
}

pub count_adds : List Call → ℕ
count_adds [] = 0
count_adds (netif_add ∷ cs) = suc (count_adds cs)
count_adds (open_control ∷ cs) = count_adds cs
count_adds (control r b ∷ cs) = count_adds cs
count_adds (open_pipe n ∷ cs) = count_adds cs
count_adds (delay n ∷ cs) = count_adds cs

-- Why an attach that reads the interface descriptor may stop before the device is touched.
pub data IsMissing (ds : Descriptors) : Type 0 where
  no_device : ds.device ≡ none → IsMissing ds
  no_endpoints : (n : ℕ) → ds.interface ≡ some n → n ≢ 0 → ds.endpoints ≡ none → IsMissing ds
  no_config : (n : ℕ) → ds.interface ≡ some n → ds.config ≡ false → IsMissing ds
  no_config_interface : (n : ℕ) → ds.interface ≡ some n → ds.config_interface ≡ false → IsMissing ds
  no_config_endpoint : (n : ℕ) → ds.interface ≡ some n → ds.config_endpoint ≡ false → IsMissing ds

-- Each descriptor is there, and endpoints are where there are any.
pub record IsComplete (ds : Descriptors) (d : Device) : Type 0 where
  pub number : ℕ
  pub has_device : ds.device ≡ some d
  pub has_interface : ds.interface ≡ some number
  pub has_endpoints : (number ≡ 0) ⊎ (ds.endpoints ≢ none)
  pub has_config : ds.config ≡ true
  pub has_config_interface : ds.config_interface ≡ true
  pub has_config_endpoint : ds.config_endpoint ≡ true

module _ (err : ℕ → ℤ) where
  -- The device has its firmware, or takes it.
  pub data IsLoaded (d : Device) : Type 0 where
    was_loaded : d.bcd_device ≡ 0x202 → IsLoaded d
    is_loaded : err 0 ≡ pos 0 → err 1 ≡ pos 0 → err 2 ≡ pos 0 → IsLoaded d

  -- A device without its firmware does not take one of the three segments.
  pub record IsBroken (d : Device) : Type 0 where
    pub segment : ℕ
    pub one_of_three : segment < 3
    pub not_loaded : d.bcd_device ≢ 0x202
    pub error : err segment ≢ pos 0

  -- How an attach ends, and when: the interface is there exactly once, with the device's address, and the
  -- log is on; or it is not there, and the address and the log are as before.
  pub data Consistent (mac : EthAddr) (ds : Descriptors) (s : Klsi) : Attached → Type 0 where
    no_interface :
        (d : Device) → ds.device ≡ some d → ds.interface ≡ none → Consistent mac ds s null_access
    without :
        (s' : Klsi) (cs : List Call)
        → IsMissing ds ⊎ ((d : Device) × IsComplete ds d × IsBroken d)
        → count_adds cs ≡ 0
        → s'.eaddr ≡ s.eaddr
        → s'.udp_log_init ≡ s.udp_log_init
        → Consistent mac ds s (failed s' cs)
    with :
        (d : Device) (s' : Klsi) (cs : List Call)
        → IsComplete ds d
        → IsLoaded d
        → count_adds cs ≡ 1
        → s'.eaddr ≡ mac
        → s'.udp_log_init ≡ 1
        → Consistent mac ds s (attached s' cs)

count_adds-append : (cs ds : List Call) → count_adds cs ≡ 0 → count_adds (cs ++ ds) ≡ count_adds ds
unfolding count_adds
count_adds-append [] ds e = refl
count_adds-append (open_control ∷ cs) ds e = count_adds-append cs ds e
count_adds-append (control r b ∷ cs) ds e = count_adds-append cs ds e
count_adds-append (open_pipe n ∷ cs) ds e = count_adds-append cs ds e
count_adds-append (netif_add ∷ cs) ds e = absurd (omega (arith, e))
count_adds-append (delay n ∷ cs) ds e = count_adds-append cs ds e

is_zero_iff : (z : ℤ) → is_zero z ≡ true → z ≡ pos 0
is_zero_iff (pos n) e = ap pos (ground (arith, e))
is_zero_iff (negsuc n) e = absurd (ground (arith, e))

not_zero : (z : ℤ) → is_zero z ≡ false → z ≢ pos 0
not_zero z e q = absurd (ground (arith, subst (λ y. is_zero y ≡ false) q e))

module _ (err : ℕ → ℤ) (mac : EthAddr) (ds : Descriptors) (s : Klsi) where
  Consistent-if :
      (c : Bool) {a b : Attached}
      → (c ≡ true → Consistent err mac ds s a)
      → (c ≡ false → Consistent err mac ds s b)
      → Consistent err mac ds s (if c then a else b)
  Consistent-if true f g = f refl
  Consistent-if false f g = g refl

  Consistent-elim {ℓ} :
      {A : Type ℓ} (o : Option A) (x : Attached) (f : A → Attached)
      → (o ≡ none → Consistent err mac ds s x)
      → ((a : A) → o ≡ some a → Consistent err mac ds s (f a))
      → Consistent err mac ds s (elim o [ none ↦ x | some a ↦ f a ])
  Consistent-elim none x f h k = h refl
  Consistent-elim (some a) x f h k = k a refl

module _ (k : UsbNames) (fw : Firmware) (err : ℕ → ℤ) (mac : EthAddr) (ds : Descriptors)
    (s0 : Klsi) where
  configure-Consistent :
      (d : Device) (s : Klsi) (before : List Call)
      → IsComplete ds d
      → IsLoaded err d
      → count_adds before ≡ 0
      → Consistent err mac ds s0 (configure k mac s before)
  unfolding configure kue_reset kue_read_mac kue_write kue_setword count_adds
  configure-Consistent d s before c l e = with d _ _ c l (count_adds-append before _ e) refl refl

  load_calls : count_adds (kue_load_fw k fw err).1 ≡ 0
  unfolding kue_load_fw count_adds kue_write
  load_calls = ground arith

  -- The firmware is loaded exactly if no segment is in error.
  load-IsLoaded :
      (d : Device)
      → (((kue_load_fw k fw err).0 ≡ true) × IsLoaded err d)
        ⊎ (((kue_load_fw k fw err).0 ≡ false) × ((i : ℕ) × (i < 3) × (err i ≢ pos 0)))
  unfolding kue_load_fw
  load-IsLoaded d = elim (Bool-cases (is_zero (err 0))) [
    | inr a ↦ inr (rw (kue_load_fw, a) refl, (0, omega arith, not_zero (err 0) a))
    | inl a ↦ elim (Bool-cases (is_zero (err 1))) [
      | inr b ↦ inr (rw (kue_load_fw, a, b) refl, (1, omega arith, not_zero (err 1) b))
      | inl b ↦ elim (Bool-cases (is_zero (err 2))) [
        | inr c ↦ inr (rw (kue_load_fw, a, b, c) refl, (2, omega arith, not_zero (err 2) c))
        | inl c ↦ inl (
          rw (kue_load_fw, a, b, c) refl,
          is_loaded (is_zero_iff (err 0) a) (is_zero_iff (err 1) b) (is_zero_iff (err 2) c),
        )
      ]
    ]
  ]

  start_device-Consistent :
      (d : Device) (s : Klsi)
      → IsComplete ds d
      → s.eaddr ≡ s0.eaddr
      → s.udp_log_init ≡ s0.udp_log_init
      → Consistent err mac ds s0 (start_device k fw err mac d s)
  unfolding start_device count_adds
  start_device-Consistent d s c e l = elim (Bool-cases (d.bcd_device == 0x202)) [
    | inl b ↦
        rw (start_device, b)
          (configure-Consistent d s (open_control ∷ []) c (was_loaded (ground (arith, b))) refl)
    | inr b ↦ elim (load-IsLoaded d) [
      | inl (loaded, il) ↦
          rw (start_device, b, loaded)
            (configure-Consistent d s (open_control ∷ (kue_load_fw k fw err).1) c il load_calls)
      | inr (broken, (i, small, bad)) ↦
          rw (start_device, b, broken)
            (without s (open_control ∷ (kue_load_fw k fw err).1)
              (inr (
                d,
                c,
                record {
                  segment = i;
                  one_of_three = small;
                  not_loaded = (λ q. ground (arith, b, q));
                  error = bad;
                },
              ))
              load_calls e l)
    ]
  ]

  attach_with-Consistent :
      (d : Device) (n : ℕ) (s : Klsi)
      → ds.device ≡ some d
      → ds.interface ≡ some n
      → (n ≡ 0) ⊎ (ds.endpoints ≢ none)
      → s.eaddr ≡ s0.eaddr
      → s.udp_log_init ≡ s0.udp_log_init
      → Consistent err mac ds s0 (attach_with k fw err mac ds d s)
  unfolding attach_with count_adds
  attach_with-Consistent d n s q r h e l =
      Consistent-if err mac ds s0 (not ds.config)
        (λ a. without s [] (inl (no_config n r (ground (arith, a)))) refl e l)
        (λ a.
          Consistent-if err mac ds s0 (not ds.config_interface)
            (λ b. without s [] (inl (no_config_interface n r (ground (arith, b)))) refl e l)
            (λ b.
              Consistent-if err mac ds s0 (not ds.config_endpoint)
                (λ c. without s [] (inl (no_config_endpoint n r (ground (arith, c)))) refl e l)
                (λ c.
                  start_device-Consistent d s
                    (record {
                      number = n;
                      has_device = q;
                      has_interface = r;
                      has_endpoints = h;
                      has_config = ground (arith, a);
                      has_config_interface = ground (arith, b);
                      has_config_endpoint = ground (arith, c);
                    })
                    e l)))

  attach_interface-Consistent :
      (d : Device) (n : ℕ)
      → ds.device ≡ some d
      → ds.interface ≡ some n
      → Consistent err mac ds s0 (attach_interface k fw err mac ds d n s0)
  unfolding attach_interface count_adds
  attach_interface-Consistent d n q r =
      Consistent-elim err mac ds s0 ds.endpoints _ _
        (λ a.
          Consistent-if err mac ds s0 (n == 0)
            (λ z. attach_with-Consistent d n s0 q r (inl (ground (arith, z))) refl refl)
            (λ z.
              without s0 [] (inl (no_endpoints n r (λ y. ground (arith, z, y)) a)) refl refl refl))
        (λ eds a. attach_with-Consistent d n _ q r (inr (λ y. ground (arith, a, y))) refl refl)

-- The attach ends in one of three ways, each with its condition. Where the device descriptor is there and the
-- interface descriptor is NULL, the code reads through NULL. It returns -1, with no interface added, and the
-- address and the log as before, only where the device descriptor, the endpoints, or one of the last three
-- descriptors is NULL, or where a device without its firmware fails to take a segment of it. It returns 0
-- only where each descriptor is there and the device has its firmware or takes it, and then the interface
-- has been added once, with the MAC address that the device gave, and the log is on.
pub usb_klsi_attach-Consistent :
    (k : UsbNames) (fw : Firmware) (err : ℕ → ℤ) (mac : EthAddr) (ds : Descriptors) (s : Klsi)
    → Consistent err mac ds s (usb_klsi_attach k fw err mac ds s)
unfolding usb_klsi_attach count_adds
usb_klsi_attach-Consistent k fw err mac ds s =
    Consistent-elim err mac ds s ds.device _ _
      (λ q. without s [] (inl (no_device q)) refl refl refl)
      (λ d q.
        Consistent-elim err mac ds s ds.interface _ _ (λ r. no_interface d q r)
          (λ n r. attach_interface-Consistent k fw err mac ds s d n q r))

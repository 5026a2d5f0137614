-- ===== src/Klsi/Usb.antt =====
-- ps2klsi/driver.c, the device: the USB requests, `usb_klsi_probe`, `usb_klsi_attach` and
-- `usb_klsi_detach`. The calls of the USB driver and of the IP stack that a function makes are the list
-- that it returns; what they answer is an argument. The constants of the SDK's usbd.h are a record.
pub mod Probe
pub mod Attach
mod Tests
use ps2eth.Prelude.{
  ℕ, zero, suc, ◌+◌, ◌*◌, bit_and, bit_or, Bool, true, false, not, ◌&&◌, Option, none, some, List,
  [], ◌∷◌, ◌++◌, ℤ, pos, negsuc, ◌==◌, length, take, if◌then◌else◌,
}
use ps2eth.Net.{EthAddr}

abbrev pub kue_cmd_set_pkt_filter : ℕ
kue_cmd_set_pkt_filter = 0x02

abbrev pub kue_cmd_set_mac : ℕ
kue_cmd_set_mac = 0x06

abbrev pub kue_cmd_get_mac : ℕ
kue_cmd_get_mac = 0x07

abbrev pub kue_cmd_set_urb_size : ℕ
kue_cmd_set_urb_size = 0x08

abbrev pub kue_cmd_set_sofs : ℕ
kue_cmd_set_sofs = 0x09

abbrev pub kue_cmd_send_scan : ℕ
kue_cmd_send_scan = 0xFF

-- KUE_RXFILT_UNICAST, KUE_RXFILT_BROADCAST, KUE_RXFILT_PROMISC and KUE_RXFILT_ALLMULTI.
abbrev pub rx_filter : ℕ
rx_filter = bit_or (bit_or (bit_or 0x0004 0x0008) 0x0001) 0x0002

-- USB_DIR_IN, USB_DIR_OUT, USB_TYPE_VENDOR, USB_ENDPOINT_XFER_BULK and USB_ENDPOINT_XFER_INT.
pub record UsbNames : Type 0 where
  pub dir_in : ℕ
  pub dir_out : ℕ
  pub type_vendor : ℕ
  pub xfer_bulk : ℕ
  pub xfer_int : ℕ

-- `UsbDeviceRequest`
pub record Request : Type 0 where
  pub requesttype : ℕ
  pub request : ℕ
  pub value : ℕ
  pub index : ℕ
  pub length : ℕ

-- A transfer on the control endpoint with the bytes given to it, the opening of a pipe on an endpoint,
-- and the other calls.
pub data Call : Type 0 where
  open_control : Call
  control : Request → List ℕ → Call
  open_pipe : ℕ → Call
  netif_add : Call
  delay : ℕ → Call

-- The fields of the device descriptor.
pub record Device : Type 0 where
  pub id_vendor : ℕ
  pub id_product : ℕ
  pub bcd_device : ℕ

-- The return value of `usb_klsi_probe`, on the descriptor or NULL.
unfoldable pub usb_klsi_probe : Option Device → ℕ
usb_klsi_probe none = 0
usb_klsi_probe (some d) =
    let netgear = if (d.id_vendor == 0x0846) && (d.id_product == 0x1001) then 1 else 0 in
    if (d.id_vendor == 0x0565) && (d.id_product == 0x0002) then 1 else netgear

unfoldable pub usb_klsi_detach : ℤ
usb_klsi_detach = negsuc 0

pub record Endpoint : Type 0 where
  pub b_endpoint_address : ℕ
  pub bm_attributes : ℕ

-- `epin`, `epout` and `epint` of `klsi_etherif`.
pub record Endpoints : Type 0 where
  pub epin : ℕ
  pub epout : ℕ
  pub epint : ℕ

-- `struct ethernetif` and the statics that the attach sets.
pub record Klsi : Type 0 where
  pub ends : Endpoints
  pub eaddr : EthAddr
  pub udp_log_init : ℕ

-- What `UsbGetDeviceStaticDescriptor` gives: the device, the number of endpoints of the interface, the
-- endpoints from `eds` on, and whether the last three descriptors are there. `none` is NULL.
pub record Descriptors : Type 0 where
  pub device : Option Device
  pub interface : Option ℕ
  pub endpoints : Option (List Endpoint)
  pub config : Bool
  pub config_interface : Bool
  pub config_endpoint : Bool

-- How the attach ends: an access through a NULL pointer, -1, or 0.
pub data Attached : Type 0 where
  null_access : Attached
  failed : Klsi → List Call → Attached
  attached : Klsi → List Call → Attached

-- The three segments of the firmware in kue_fw.h, by their bytes.
pub record Firmware : Type 0 where
  pub code_seg : List ℕ
  pub fix_seg : List ℕ
  pub trig_seg : List ℕ

abbrev pub is_zero : ℤ → Bool
is_zero (pos n) = n == 0
is_zero (negsuc n) = false

module _ (k : UsbNames) where
  -- `(ed->bEndpointAddress & 0x80) == dir && ed->bmAttributes == attributes`
  unfoldable pub is_endpoint : (dir attributes : ℕ) → Endpoint → Bool
  is_endpoint dir attributes e =
      (bit_and e.b_endpoint_address 0x80 == dir) && (e.bm_attributes == attributes)

  -- The body of the loop over the endpoints.
  unfoldable pub note_endpoint : ℕ → Endpoint → Endpoints → Endpoints
  note_endpoint i e s =
      if is_endpoint k.dir_in k.xfer_bulk e
      then record s { epin = i }
      else if is_endpoint k.dir_out k.xfer_bulk e
      then record s { epout = i }
      else if is_endpoint k.dir_in k.xfer_int e
      then record s { epint = i }
      else s

  unfoldable pub find_endpoints : ℕ → List Endpoint → Endpoints → Endpoints
  find_endpoints i [] s = s
  find_endpoints i (e ∷ es) s = find_endpoints (i + 1) es (note_endpoint i e s)

  unfoldable pub kue_setword : ℕ → ℕ → Call
  kue_setword breq word =
      control
        (record {
          requesttype = bit_or k.dir_out k.type_vendor;
          request = breq;
          value = word;
          index = 0;
          length = 0;
        })
        []

  -- The request of `kue_ctl`; `write` is `rw == KUE_CTL_WRITE`.
  unfoldable pub ctl_request : Bool → ℕ → ℕ → ℕ → Request
  ctl_request write breq val len = record {
    requesttype = bit_or (if write then k.dir_out else k.dir_in) k.type_vendor;
    request = breq;
    value = val;
    index = 0;
    length = len;
  }

  -- A write by `kue_ctl`.
  unfoldable pub kue_write : ℕ → List ℕ → Call
  kue_write breq bytes = control (ctl_request true breq 0 (length bytes)) bytes

  -- `kue_load_fw`: whether it succeeds, and its calls. `kue_do_request` has no return statement, so what
  -- `kue_ctl` returns here, `err`, is whatever the caller finds: the argument `err`, by segment.
  unfoldable pub kue_load_fw : Firmware → (err : ℕ → ℤ) → Bool × List Call
  kue_load_fw fw err =
      let code = kue_write kue_cmd_send_scan fw.code_seg in
      let fix = kue_write kue_cmd_send_scan fw.fix_seg in
      let trig = kue_write kue_cmd_send_scan fw.trig_seg in
      if not (is_zero (err 0))
      then (false, code ∷ [])
      else if not (is_zero (err 1))
      then (false, code ∷ fix ∷ [])
      else if not (is_zero (err 2))
      then (false, code ∷ fix ∷ trig ∷ [])
      else (true, code ∷ fix ∷ trig ∷ [])

  unfoldable pub kue_reset : List Call
  kue_reset =
      control (record { requesttype = 0; request = 9; value = 1; index = 0; length = 0 }) []
      ∷ delay (2 * 1000 * 1000)
      ∷ []

  -- `kue_ctl(KUE_CTL_READ, KUE_CMD_GET_MAC, ...)` of `kue_read_mac`; the buffer given is `eaddr`.
  unfoldable pub kue_read_mac : EthAddr → Call
  kue_read_mac eaddr = control (ctl_request false kue_cmd_get_mac 0 6) eaddr

  -- The attach from the reset on. `mac` is `eaddr` after the device has answered `kue_read_mac`.
  unfoldable pub configure : (mac : EthAddr) → Klsi → List Call → Attached
  configure mac s before =
      attached (record s { eaddr = mac; udp_log_init = 1 })
        (before
          ++ (kue_reset
              ++ (kue_read_mac s.eaddr
                  ∷ kue_write kue_cmd_set_mac mac
                  ∷ kue_setword kue_cmd_set_pkt_filter rx_filter
                  ∷ kue_setword kue_cmd_set_sofs 1
                  ∷ kue_setword kue_cmd_set_urb_size 64
                  ∷ open_pipe s.ends.epin
                  ∷ open_pipe s.ends.epout
                  ∷ netif_add
                  ∷ delay (2 * 1000 * 1000)
                  ∷ [])))

  -- `if (device->bcdDevice != 0x202 ) ...` and what follows it.
  unfoldable pub start_device :
      Firmware → (err : ℕ → ℤ) → (mac : EthAddr) → Device → Klsi → Attached
  start_device fw err mac d s =
      let loaded = kue_load_fw fw err in
      if not (d.bcd_device == 0x202)
      then (if loaded.0
          then configure mac s (open_control ∷ loaded.1)
          else failed s (open_control ∷ loaded.1))
      else configure mac s (open_control ∷ [])

  -- `usb_klsi_attach` behind the loop over the endpoints.
  unfoldable pub attach_with :
      Firmware → (err : ℕ → ℤ) → (mac : EthAddr) → Descriptors → Device → Klsi → Attached
  attach_with fw err mac ds d s =
      if not ds.config
      then failed s []
      else if not ds.config_interface
      then failed s []
      else if not ds.config_endpoint
      then failed s []
      else start_device fw err mac d s

  -- The loop over the endpoints, with `ed == NULL` at its first one if `eds` is NULL, and what follows.
  unfoldable pub attach_interface :
      Firmware → (err : ℕ → ℤ) → (mac : EthAddr) → Descriptors → Device → ℕ → Klsi → Attached
  attach_interface fw err mac ds d n s = elim ds.endpoints [
    | none ↦ if n == 0 then attach_with fw err mac ds d s else failed s []
    | some eds ↦
        attach_with fw err mac ds d (record s { ends = find_endpoints 0 (take n eds) s.ends })
  ]

  -- `usb_klsi_attach`
  unfoldable pub usb_klsi_attach :
      Firmware → (err : ℕ → ℤ) → (mac : EthAddr) → Descriptors → Klsi → Attached
  usb_klsi_attach fw err mac ds s = elim ds.device [
    | none ↦ failed s []
    | some d ↦ elim ds.interface [
      | none ↦ null_access
      | some n ↦ attach_interface fw err mac ds d n s
    ]
  ]

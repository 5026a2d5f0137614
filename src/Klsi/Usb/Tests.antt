-- ===== src/Klsi/Usb/Tests.antt =====
-- ps2klsi/driver.c: the theorems on the device at concrete descriptors.
use ps2eth.Prelude.{refl, true, some, List, [], ◌∷◌, pos, arith}
use ps2eth.Klsi.Usb.{
  UsbNames, Device, Descriptors, Firmware, Klsi, Endpoint, Endpoints, usb_klsi_attach,
  find_endpoints, is_endpoint,
}
use ps2eth.Klsi.Usb.Probe.{IsAt, has_kind, bulk_in, bulk_out, find_endpoints-IsAt}
use ps2eth.Klsi.Usb.Attach.{Consistent, usb_klsi_attach-Consistent}

abbrev netgear : Device
netgear = record { id_vendor = 0x0846; id_product = 0x1001; bcd_device = 0x101 }

-- The values of the USB standard.
abbrev standard : UsbNames
standard = record { dir_in = 0x80; dir_out = 0; type_vendor = 0x40; xfer_bulk = 2; xfer_int = 3 }

abbrev three_endpoints : List Endpoint
three_endpoints =
    record { b_endpoint_address = 0x81; bm_attributes = 2 }
    ∷ record { b_endpoint_address = 0x02; bm_attributes = 2 }
    ∷ record { b_endpoint_address = 0x83; bm_attributes = 3 }
    ∷ []

abbrev no_endpoints : Endpoints
no_endpoints = record { epin = 0; epout = 0; epint = 0 }

three_endpoints_found :
    IsAt
      (bulk_in standard)
      0
      three_endpoints
      (find_endpoints standard 0 three_endpoints no_endpoints).epin
    × IsAt
        (bulk_out standard)
        0
        three_endpoints
        (find_endpoints standard 0 three_endpoints no_endpoints).epout
unfolding has_kind is_endpoint
three_endpoints_found =
    find_endpoints-IsAt standard three_endpoints no_endpoints (omega arith) refl refl

abbrev descriptors : Descriptors
descriptors = record {
  device = some netgear;
  interface = some 3;
  endpoints = some three_endpoints;
  config = true;
  config_interface = true;
  config_endpoint = true;
}

abbrev segments : Firmware
segments = record { code_seg = 0xb6 ∷ 0xc3 ∷ []; fix_seg = 0xb6 ∷ []; trig_seg = 0xb6 ∷ [] }

abbrev fresh : Klsi
fresh = record { ends = no_endpoints; eaddr = 1 ∷ 2 ∷ 3 ∷ 4 ∷ 5 ∷ 6 ∷ []; udp_log_init = 0 }

usb_klsi_attach-Consistent_example :
    Consistent
      (λ i. pos 0)
      (0 ∷ 2 ∷ 3 ∷ 4 ∷ 5 ∷ 6 ∷ [])
      descriptors
      fresh
      (usb_klsi_attach standard segments
        (λ i. pos 0)
        (0 ∷ 2 ∷ 3 ∷ 4 ∷ 5 ∷ 6 ∷ [])
        descriptors
        fresh)
usb_klsi_attach-Consistent_example =
    usb_klsi_attach-Consistent standard segments (λ i. pos 0) (0 ∷ 2 ∷ 3 ∷ 4 ∷ 5 ∷ 6 ∷ [])
      descriptors fresh

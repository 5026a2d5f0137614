-- ===== src/Klsi/Start/Dotted.antt =====
-- ps2klsi/driver.c: `_start` takes dotted addresses for what they mean.
use ps2eth.Prelude.{
  ℕ, suc, ◌+◌, ◌≤◌, ◌≡◌, refl, ap, ◌∙◌, some, List, [], ◌∷◌, ◌++◌, arith, length, length-append,
  length-map,
}
use ps2eth.Net.{IpAddr, ip4_addr}
use ps2eth.Net.Addr.{ip4_addr-eq}
use ps2eth.Smap.Config.Digits.{number, characters, AreDecimal}
use ps2eth.Klsi.Inet.{inet_addr}
use ps2eth.Klsi.Inet.Dotted.{spend, inet_addr-dotted}
use ps2eth.Klsi.Start.{start}

-- A decimal number of an octet, by its digits.
pub record Octet : Type 0 where
  pub digits : List ℕ
  pub decimal : AreDecimal digits
  pub small : number 10 0 digits ≤ 255

abbrev pub value : Octet → ℕ
value o = number 10 0 o.digits

-- Four octets, their dotted form and their address.
pub record Dotted : Type 0 where
  pub a : Octet
  pub b : Octet
  pub c : Octet
  pub d : Octet

pub dotted : Dotted → List ℕ
dotted t =
    characters t.a.digits
    ++ (0x2e
        ∷ (characters t.b.digits
            ++ (0x2e ∷ (characters t.c.digits ++ (0x2e ∷ (characters t.d.digits ++ []))))))

pub address : Dotted → IpAddr
address t = ip4_addr (value t.a) (value t.b) (value t.c) (value t.d)

spend-eq : (ds : List ℕ) (n : ℕ) → spend ds n ≡ length ds + n
unfolding spend
spend-eq [] n = omega arith
spend-eq (d ∷ ds) n = omega (arith, spend-eq ds n)

-- One unit of fuel for each character of the string and one more.
abbrev pub enough : List ℕ → ℕ
enough s = suc (length s)

length-part : (ds rest : List ℕ) → length (characters ds ++ rest) ≡ length ds + length rest
unfolding characters
length-part ds rest =
    omega (arith, length-append (characters ds) rest, length-map ds (λ d. 0x30 + d))

enough-dotted :
    (t : Dotted)
    → enough (dotted t)
      ≡ spend t.a.digits
          (suc (spend t.b.digits (suc (spend t.c.digits (suc (spend t.d.digits 1))))))
unfolding dotted
enough-dotted t =
    let last = characters t.d.digits ++ [] in
    let third = characters t.c.digits ++ (0x2e ∷ last) in
    let second = characters t.b.digits ++ (0x2e ∷ third) in
    let e4 = spend-eq t.d.digits 1 in
    let e3 = spend-eq t.c.digits (suc (spend t.d.digits 1)) in
    let e2 = spend-eq t.b.digits (suc (spend t.c.digits (suc (spend t.d.digits 1)))) in
    omega (
      arith,
      length-part t.a.digits (0x2e ∷ second),
      length-part t.b.digits (0x2e ∷ third),
      length-part t.c.digits (0x2e ∷ last),
      length-part t.d.digits [],
      spend-eq t.a.digits
          (suc (spend t.b.digits (suc (spend t.c.digits (suc (spend t.d.digits 1)))))),
      e2,
      e3,
      e4,
    )

inet_addr-address : (t : Dotted) → inet_addr (enough (dotted t)) (dotted t) ≡ some (address t)
unfolding dotted address
inet_addr-address t =
    let whole =
      ip4_addr-eq (value t.a) (value t.b) (value t.c) (value t.d) (omega (arith, t.a.small))
        (omega (arith, t.b.small)) (omega (arith, t.c.small)) (omega (arith, t.d.small)) in
    ap (λ n. inet_addr n (dotted t)) (enough-dotted t)
    ∙ inet_addr-dotted t.a.digits t.b.digits t.c.digits t.d.digits t.a.decimal t.b.decimal
        t.c.decimal t.d.decimal t.a.small t.b.small t.c.small t.d.small
    ∙ ap some (omega (arith, whole))

-- With three dotted arguments, each of four decimal numbers up to 255, `_start` takes the addresses that
-- `IP4_ADDR` makes of these numbers; `inet_addr` ends on each of them.
pub start-dotted :
    (name : List ℕ) (a b c : Dotted)
    → start enough (name ∷ dotted a ∷ dotted b ∷ dotted c ∷ [])
      ≡ some (record { ipaddr = address a; netmask = address b; gw = address c })
unfolding start
start-dotted name a b c = rw (inet_addr-address a, inet_addr-address b, inet_addr-address c) refl

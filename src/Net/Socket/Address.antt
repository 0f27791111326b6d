-- ===== src/Net/Socket/Address.antt =====
-- windz/net/Socket.cpp: addresses, as numbers and as texts.
use windz.Prelude.{ℕ, ◌^◌, ◌<◌, ◌≡◌, refl, sym, ap, ap₂, ◌∙◌, Bool, true, List, arith}
use windz.Net.Socket.Interface.{InetAddr}
use windz.Net.Socket.{
  htons, af_inet, new_inet_addr, Bytes, bytes_of, of_bytes, Pton, valid, inet_addr_of, ip_string,
  port_uint16,
}

htons-htons : (port : ℕ) → port < 2 ^ 16 → htons (htons port) ≡ port
unfolding htons
htons-htons port h = omega arith

of_bytes-bytes_of : (s : ℕ) → s < 2 ^ 32 → of_bytes (bytes_of s) ≡ s
unfolding of_bytes bytes_of
of_bytes-bytes_of s h = omega arith

-- The port of a new address is the one that was given.
pub port_uint16-new_inet_addr :
    (port : ℕ) (loopback : Bool) → port < 2 ^ 16 → port_uint16 (new_inet_addr port loopback) ≡ port
unfolding port_uint16 new_inet_addr
port_uint16-new_inet_addr port loopback h = htons-htons port h

-- An address that is made of the text and the port of an address of the Internet is that address, if
-- `inet_pton` reads what `inet_ntop` writes.
inet_addr_of-ip_string :
    (inet_ntop : Bytes → List ℕ) (inet_pton : List ℕ → Pton) (addr : InetAddr)
    → ((b : Bytes) → inet_pton (inet_ntop b) ≡ valid b)
    → addr.sin_family ≡ af_inet
    → addr.sin_port < 2 ^ 16
    → addr.s_addr < 2 ^ 32
    → inet_addr_of inet_pton (ip_string inet_ntop addr) (port_uint16 addr) ≡ addr
unfolding inet_addr_of ip_string port_uint16
inet_addr_of-ip_string inet_ntop inet_pton addr h f p s =
    rw (inet_addr_of, h (bytes_of addr.s_addr))
      (ap₂ (λ n a. record { sin_family = af_inet; sin_port = n; s_addr = a })
          (htons-htons addr.sin_port p) (of_bytes-bytes_of addr.s_addr s)
        ∙ ap (λ n. record addr { sin_family = n }) (sym f))

-- The address that is asked for as that of the own machine, 127.0.0.1, is 1.0.0.127, whatever its
-- port and however an address is written; it is another one than 127.0.0.1.
new_inet_addr-loopback :
    (inet_ntop : Bytes → List ℕ) (port : ℕ)
    → (ip_string inet_ntop (new_inet_addr port true) ≡ inet_ntop (1, 0, 0, 127))
      × ¬ ((new_inet_addr port true).s_addr ≡ of_bytes (127, 0, 0, 1))
unfolding ip_string new_inet_addr bytes_of of_bytes
new_inet_addr-loopback inet_ntop port = (refl, λ e. omega (arith, e))

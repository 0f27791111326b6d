-- ===== src/Net/Socket/Tests.antt =====
-- windz/net/Socket.cpp at concrete inputs.
use windz.Prelude.{ℕ, ◌≡◌, refl, List, [], ◌∷◌}
use windz.Net.Socket.Interface.{InetAddr}
use windz.Net.Socket.{
  htons, bytes_of, of_bytes, Bytes, Pton, valid, invalid, inet_addr_of, ip_string, port_uint16,
}

-- A text of four characters, for the four bytes.
abbrev print : Bytes → List ℕ
print (a, b, c, d) = a ∷ b ∷ c ∷ d ∷ []

abbrev read : List ℕ → Pton
read (a ∷ b ∷ c ∷ d ∷ []) = valid (a, b, c, d)
read _ = invalid

abbrev address : InetAddr
address = record { sin_family = 2; sin_port = 36_895; s_addr = 0x0100_007f }

-- The text and the port of the address make it again.
address-inet_addr_of : inet_addr_of read (ip_string print address) (port_uint16 address) ≡ address
unfolding inet_addr_of ip_string port_uint16 htons bytes_of of_bytes
address-inet_addr_of = refl

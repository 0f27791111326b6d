-- ===== src/Net/Acceptor/Draining.antt =====
-- windz/net/Acceptor.cpp: the queue of the listening socket, emptied.
use mathlib.Core.List.{cons≢nil}
use windz.Prelude.{◌≡◌, sym, ◌∙◌, inl, inr, List, [], ◌∷◌, length}
use windz.Net.Socket.Interface.{InetAddr, Kernel, accept_failed}
use windz.Net.Acceptor.{Acceptor, handle_read, handle_reads}
use windz.Net.Acceptor.Held.{Holds, handle_read-Takes}

-- However few descriptors are left, and whichever error says so: if no `accept4` of a waiting
-- connection fails for another reason, as many calls of `HandleRead` as connections wait leave none
-- waiting, so that the socket is not readable any more; a descriptor is still held back.
pub handle_reads-drains :
    (k : Kernel) (cs : List InetAddr) (a : Acceptor) (s : k.System)
    → ((t : k.System) → (k.accept4 t).0 ≡ accept_failed → k.waiting t ≡ [])
    → Holds k a s
    → k.waiting s ≡ cs
    → (k.waiting (handle_reads k (length cs) a s).1 ≡ [])
      × Holds k (handle_reads k (length cs) a s).0 (handle_reads k (length cs) a s).1
unfolding handle_reads
handle_reads-drains k [] a s sure h w = (w, h)
handle_reads-drains k (c ∷ cs) a s sure h w =
    let t = handle_read-Takes k c cs a s h w in
    let (a', s') = handle_read k a s in
    elim t.outcome [
      | inl o ↦ handle_reads-drains k cs a' s' sure t.holds o.4
      | inr (inl o) ↦ handle_reads-drains k cs a' s' sure t.holds o.2
      | inr (inr o) ↦ absurd (cons≢nil (sym o.5 ∙ sure o.3 o.6))
    ]

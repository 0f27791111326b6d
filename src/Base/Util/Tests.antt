-- ===== src/Base/Util/Tests.antt =====
-- windz/base/Util.cpp at concrete inputs.
use windz.Prelude.{◌≡◌, refl, List, [], ◌∷◌, length, ◌>>=◌, arith}
use windz.Base.Util.{
  WriteAnswer, wrote, write_interrupted, write_fd, ReadAnswer, got, read_interrupted,
  read_would_block, readn,
}
use windz.Base.Util.Reading.{done, readn-write_fd}

abbrev slow : List WriteAnswer
slow = wrote 1 ∷ write_interrupted ∷ wrote 0 ∷ wrote 2 ∷ []

abbrev arriving : List ReadAnswer
arriving = got (1 ∷ 2 ∷ []) ∷ read_interrupted ∷ got (3 ∷ []) ∷ read_would_block ∷ []

readn-write_fd_example :
    (write_fd slow (1 ∷ 2 ∷ 3 ∷ []) >>= λ (n, sent). readn arriving (length sent) 0 [])
    ≡ done 3 (1 ∷ 2 ∷ 3 ∷ [])
readn-write_fd_example =
    readn-write_fd slow arriving (1 ∷ 2 ∷ 3 ∷ []) []
      (omega arith, (omega arith, (omega arith, refl))) refl (omega arith, (omega arith, tt)) tt

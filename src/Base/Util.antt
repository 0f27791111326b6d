-- ===== src/Base/Util.antt =====
-- windz/base/Util.{h,cpp}: the loops over `write` and `read`, formatted text, and the flags of a
-- descriptor. The answers of the kernel are a list; a
-- loop that asks for more answers than are given is out of fuel.
pub mod Complete
pub mod Reading
pub mod Formatted
mod Tests
use Prim.Native.Nat.{bit_or}
use windz.Prelude.{
  ℕ, ◌+◌, ◌-◌, ◌≤◌, ◌<◌, ◌≡◌, Bool, true, false, List, [], ◌∷◌, ◌++◌, length, take, drop, ltb, ◌==◌,
  if◌then◌else◌, leb, ◌<◌, set, replicate, suc, zero, Option, none, some, Run, ok, fault,
  out_of_fuel, ◌>>=◌,
}

-- What one call of `write` returns: the bytes it took, or an error.
pub data WriteAnswer : Type 0 where
  wrote : ℕ → WriteAnswer
  write_interrupted write_failed : WriteAnswer

-- `Writen` of the bytes that are left: its result, -1 as `none`, and what the kernel took. The
-- loop asks again after an interrupt and after a write of no byte.
unfoldable pub writen : List WriteAnswer → List ℕ → ℕ → List ℕ → Run (Option ℕ × List ℕ)
writen answers [] sum sent = ok (some sum, sent)
writen [] (b ∷ bs) sum sent = fault out_of_fuel
writen (wrote n ∷ answers) (b ∷ bs) sum sent =
    writen answers (drop n (b ∷ bs)) (sum + n) (sent ++ take n (b ∷ bs))
writen (write_interrupted ∷ answers) (b ∷ bs) sum sent = writen answers (b ∷ bs) sum sent
writen (write_failed ∷ answers) (b ∷ bs) sum sent = ok (none, sent)

pub write_fd : List WriteAnswer → List ℕ → Run (Option ℕ × List ℕ)
write_fd answers buf = writen answers buf 0 []

-- What one call of `read` returns: bytes, none of them at the end of the file, or an error.
pub data ReadAnswer : Type 0 where
  got : List ℕ → ReadAnswer
  read_interrupted read_would_block read_failed : ReadAnswer

-- `ReadFd`: its result, -1 as `none`, and the string with what was read.
unfoldable pub read_all_of : List ReadAnswer → ℕ → List ℕ → Run (Option ℕ × List ℕ)
read_all_of [] sum buf = fault out_of_fuel
read_all_of (got [] ∷ answers) sum buf = ok (some sum, buf)
read_all_of (got (b ∷ bs) ∷ answers) sum buf =
    read_all_of answers (sum + length (b ∷ bs)) (buf ++ b ∷ bs)
read_all_of (read_interrupted ∷ answers) sum buf = read_all_of answers sum buf
read_all_of (read_would_block ∷ answers) sum buf = ok (some sum, buf)
read_all_of (read_failed ∷ answers) sum buf = ok (none, buf)

pub read_fd_to : List ReadAnswer → List ℕ → Run (Option ℕ × List ℕ)
unfolding read_all_of
read_fd_to answers buf = read_all_of answers 0 buf

-- `Readn`, which stops at the end of the file and at an empty socket: its result, -1 as `none`, and
-- what was read.
unfoldable pub readn : List ReadAnswer → ℕ → ℕ → List ℕ → Run (Option ℕ × List ℕ)
readn answers zero sum buf = ok (some sum, buf)
readn [] (suc n) sum buf = fault out_of_fuel
readn (got [] ∷ answers) (suc n) sum buf = ok (some sum, buf)
readn (got (b ∷ bs) ∷ answers) (suc n) sum buf =
    readn answers (suc n - length (b ∷ bs)) (sum + length (b ∷ bs)) (buf ++ b ∷ bs)
readn (read_interrupted ∷ answers) (suc n) sum buf = readn answers (suc n) sum buf
readn (read_would_block ∷ answers) (suc n) sum buf = ok (some sum, buf)
readn (read_failed ∷ answers) (suc n) sum buf = ok (none, buf)

-- `vsnprintf` of a text: how many characters it has, and what stands in an array of `size`.
unfoldable pub vsnprintf : ℕ → List ℕ → ℕ × List ℕ
vsnprintf size text = (length text, take (size - 1) text ++ 0 ∷ [])

-- A `std::string` of what stands before the first '\0'.
pub c_string : List ℕ → List ℕ
c_string [] = []
c_string (c ∷ cs) = elim (c == 0) [ true ↦ [] | false ↦ c ∷ c_string cs ]

abbrev pub small_size : ℕ
small_size = 500

abbrev pub large_size : ℕ
large_size = 30_000

-- The round of `Format` with the large array, the last place of which is set if the text is cut.
unfoldable pub format_large : List ℕ → List ℕ
unfolding vsnprintf
format_large text =
    let (n, base) = vsnprintf large_size text in
    if leb large_size n then set base (large_size - 1) 0 else base

-- `Format`, of the text that the format and its arguments stand for.
pub format : List ℕ → List ℕ
unfolding vsnprintf c_string format_large
format text =
    let (n, base) = vsnprintf small_size text in
    if leb small_size n then c_string (format_large text) else c_string base

-- The flags of a descriptor and of its file, and the two calls of `fcntl` that set them.
pub record FdFlags : Type 0 where
  pub status : ℕ
  pub descriptor : ℕ

abbrev pub o_nonblock : ℕ
o_nonblock = 2048

abbrev pub fd_cloexec : ℕ
fd_cloexec = 1

-- `AddFdFlag` of an open descriptor; whether `fcntl` succeeds is an argument.
pub add_fd_flag : Bool → ℕ → FdFlags → Bool × FdFlags
add_fd_flag works flag f =
    if works then (true, record f { status = bit_or f.status flag }) else (false, f)

pub set_non_block_and_close_on_exec : Bool → Bool → FdFlags → Bool × FdFlags
unfolding add_fd_flag
set_non_block_and_close_on_exec works works_then f =
    let (done, f') = add_fd_flag works o_nonblock f in
    if done
    then if works_then
      then (true, record f' { descriptor = bit_or f'.descriptor fd_cloexec })
      else (false, f')
    else (false, f')

-- ===== src/EmuEs/Tests.antt =====
-- Runs of the requests against a stand-in for the real ES that fills every output vector, and on a
-- disc image of one partition.
use saoirse.Prelude.{
  ℕ, zero, suc, ◌+◌, ◌-◌, ◌<◌, ◌≤◌, ◌≡◌, arith, true, false, Option, none, some, List, [], ◌∷◌,
  refl, ℤ, pos, get_or, ◌==◌, ◌||◌, if◌then◌else◌, codes, str_eq,
}
use saoirse.Prelude.Buffers.{Buffer, blit, double_word}
use saoirse.EmuFs.Env.{fr_ok, is_ok}
use saoirse.EmuFs.IosError
use saoirse.EmuDi.DiError
use saoirse.EmuDi.Iso.{
  IsoEnv, IsoState, open_partition, take_title_key, read_tmd, read_raw, read_parts,
}
use saoirse.EmuEs.EsError
use saoirse.EmuEs.Ioctl.{EsIoctl, number, ioctl_of, ticket_title_id}
use saoirse.EmuEs.Calls.{Es, store, call_out}
use saoirse.EmuEs.Commands.{TitleContext, di_verify, req_get_titles}
use saoirse.EmuEs.Requests.{vectors_at, req_ioctlv, run_ioctlv, null_vectors, ipc_request, Request}
use saoirse.EmuEs.Nulled.{nulled_memory}
use saoirse.EmuEs.Layout.{perform, req_ioctlv_exact}
use saoirse.EmuEs.Frame.{byte_of, holds, req_ioctlv_frame, contents_overrun}
use saoirse.EmuEs.Title.{with_es, opened_title_answered}

abbrev filling : Es
filling = record { World = Unit; ioctlv = λ cmd ins len w. (pos 0, (λ x. some 7), w) }

abbrev fresh : TitleContext
fresh = record { use_title_ctx = false; title_id = 0; ticket = λ x. 0 }

-- Two titles or contents are asked for: the count is at 0x100 and at 0x110.
-- From 0x400 on are the vectors (0x100, 4) and (0x200, 16), from 0x500 on (0x300, 8), (0x110, 4) and
-- (0x200, 8), and from 0x600 on (0x200, 8).
abbrev memory : Buffer
memory x =
    if x == 0x103 || x == 0x113 || x == 0x40A || x == 0x512 || x == 0x602
    then 2
    else if x == 0x402 || x == 0x50A
    then 1
    else if x == 0x407 || x == 0x50F
    then 4
    else if x == 0x40F || x == 0x50B
    then 16
    else if x == 0x502
    then 3
    else if x == 0x507 || x == 0x517 || x == 0x607
    then 8
    else 0

req_ioctlv_exact_example :
    req_ioctlv filling fresh EsIoctl.get_titles 1 1 0x400 memory tt
    ≡ perform filling fresh EsIoctl.get_titles
        (vectors_at (nulled_memory 2 0x400 memory) 0x400)
        (nulled_memory 2 0x400 memory)
        tt
unfolding nulled_memory
req_ioctlv_exact_example = req_ioctlv_exact filling fresh EsIoctl.get_titles 1 1 0x400 memory tt

outside : (i : ℕ) → 1 ≤ i → i < 2 → holds (vectors_at memory 0x400 i) 0x210 ≡ false
outside i lo hi = let one : i ≡ 1 = omega (arith, lo, hi) in rw one refl

req_ioctlv_frame_example :
    store (null_vectors 2 0x400 memory) 0x200 16 (λ x. some 7) 0x210 ≡ memory 0x210
unfolding req_ioctlv run_ioctlv req_get_titles null_vectors call_out number
req_ioctlv_frame_example =
    req_ioctlv_frame filling fresh EsIoctl.get_titles 1 1 0x400 memory
      (store (null_vectors 2 0x400 memory) 0x200 16 (λ x. some 7)) tt tt (pos 0) 0x210
      (λ e. absurd (ground (arith, e))) outside refl refl

contents_overrun_example :
    byte_of filling memory
      (req_ioctlv filling fresh EsIoctl.get_title_contents 2 1 0x500 memory tt)
      0x117
    ≡ 7
unfolding nulled_memory
contents_overrun_example =
    contents_overrun filling fresh 0x500 memory tt (λ x. 7) refl (omega arith) (λ ins x. refl) 7
      (omega arith)

numbers_decode : ioctl_of (number EsIoctl.get_data_dir) ≡ EsIoctl.get_data_dir
unfolding ioctl_of number
numbers_decode = refl

elsewhere_not_found :
    ipc_request filling fresh (Request.open_path (codes "/dev/es")) memory tt
    ≡ some (IosError.not_found, memory, tt)
unfolding ipc_request str_eq
elsewhere_not_found = refl

-- A disc whose first sector is the header of a partition: its TMD has 0x208 bytes.
abbrev disc : Buffer
disc x =
    if x == 0x2A4
    then 0
    else if x == 0x2A5
    then 0
    else if x == 0x2A6
    then 2
    else if x == 0x2A7
    then 8
    else 1

abbrev span : ℕ → ℕ → List ℕ
span zero o = []
span (suc n) o = disc o ∷ span n (suc o)

get_or-span_small : (n o x : ℕ) → get_or (span n o) x 0 < 256
get_or-span_small zero o x = omega arith
get_or-span_small (suc n) o zero = ground arith
get_or-span_small (suc n) o (suc x) = get_or-span_small n (suc o) x

abbrev drive : IsoEnv
drive = record {
  World = ℕ;
  f_lseek = λ part o w. (fr_ok, o);
  f_read = λ part n w. (fr_ok, span n w, w + n);
  decrypt = λ key iv b n w. (pos 0, b, w);
  di_verify = λ id ticket w. (pos 0, w);
  stack = λ x. 0;
}

abbrev inserted : IsoState
inserted = record {
  num_parts = 1;
  part_size = 0x80000000;
  last_part_size = 0x80000000;
  disk_id = λ x. 0;
  read_disk_id_called = true;
  partition = λ x. 0;
  partition_offset = 0;
  partition_opened = false;
  title_key = λ x. 0;
  data_block = λ x. 0;
  data_block_decrypted = λ x. 0;
  last_read_block = 0;
}

abbrev Opening : Type 0
Opening = ℤ × Buffer × IsoState × (ℕ × TitleContext)

abbrev or_closed : Option Opening → Opening
or_closed none = (pos 0, (λ x. 0), inserted, (0, fresh))
or_closed (some o) = o

abbrev opening : Opening
opening = or_closed (open_partition (with_es drive) 0 (λ x. 0) inserted (0, fresh))

opens :
    open_partition (with_es drive) 0 (λ x. 0) inserted (0, fresh)
    ≡ some (DiError.ok, opening.1, opening.2, (opening.3.0, opening.3.1))
unfolding open_partition read_tmd take_title_key read_raw read_parts di_verify is_ok
opens = refl

blit_small : (n x : ℕ) → blit (λ x. 0) 0 (span n 0) x < 256
blit_small n x = ground (arith, get_or-span_small n 0 (x - 0))

opened_bytes : (x : ℕ) → opening.2.partition x < 256
unfolding open_partition read_tmd take_title_key read_raw read_parts di_verify is_ok
opened_bytes x = blit_small 704 x

opened_title_answered_example :
    (m' : Buffer) × (req_ioctlv filling opening.3.1 EsIoctl.get_title_id 0 1 0x600 memory tt
      ≡ some (EsError.ok, m', tt))
    × (double_word m' 0x200 ≡ double_word opening.2.partition ticket_title_id)
opened_title_answered_example =
    opened_title_answered drive filling 0 (λ x. 0) opening.1 inserted opening.2 0 opening.3.0 fresh
      opening.3.1 0x600 memory tt opens opened_bytes refl

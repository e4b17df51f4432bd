-- ===== src/EmuEs/Requests.antt =====
-- ios/IOS/EmuES.cpp: `ReqIoctlv` over the cases of its commands, and `IPCRequest`.
use saoirse.Prelude.{
  ℕ, zero, suc, ◌+◌, ◌*◌, ◌||◌, not, Option, some, List, leb, ◌==◌, if◌then◌else◌, codes, str_eq,
}
use saoirse.Prelude.Buffers.{Buffer, word, fill_zero}
use saoirse.EmuFs.IosError
use saoirse.EmuEs.EsError
use saoirse.EmuEs.Ioctl.{EsIoctl, ioctl_of}
use saoirse.EmuEs.Calls.{Es}
use saoirse.EmuEs.Commands.{
  TitleContext, Vector, Answer, block_ios_reload, req_get_device_id, req_launch_title,
  req_get_owned_titles_count, req_get_titles_count, req_get_titles, req_get_title_contents_count,
  req_get_title_contents, req_get_num_ticket_views, req_get_ticket_views, req_get_tmd_view_size,
  req_get_tmd_view, req_di_get_ticket_view, req_get_data_dir, req_get_device_cert, req_get_title_id,
}

-- The vectors of the array at `base` in memory: each is a pointer and a length, of four bytes each.
abbrev pub vectors_at : Buffer → ℕ → ℕ → Vector
vectors_at m base i = record { address = word m (base + 8 * i); len = word m (base + 8 * i + 4) }

-- The loop that stores a null pointer to the first `n` vectors of the array where they are empty.
unfoldable pub null_vectors : ℕ → ℕ → Buffer → Buffer
null_vectors zero base m = m
null_vectors (suc n) base m =
    let done = null_vectors n base m in
    if (vectors_at done base n).len == 0 then fill_zero done (base + 8 * n) 4 else done

-- A request: the counts of its vectors and the address of their array, or the path to open.
pub data Request : Type 0 where
  open_path : List ℕ → Request
  close : Request
  ioctlv : ℕ → ℕ → ℕ → ℕ → Request
  other : Request

module _ (E : Es) where
  open E use {World}

  -- The switch of `ReqIoctlv`.
  unfoldable pub run_ioctlv :
      TitleContext → EsIoctl → ℕ → ℕ → (ℕ → Vector) → Buffer → World → Option (Answer E)
  run_ioctlv s EsIoctl.get_device_id ins outs vec m w = some (req_get_device_id E ins outs vec m w)
  run_ioctlv s EsIoctl.launch_title ins outs vec m w =
      req_launch_title E block_ios_reload ins outs vec m w
  run_ioctlv s EsIoctl.get_owned_titles_count ins outs vec m w =
      some (req_get_owned_titles_count E ins outs vec m w)
  run_ioctlv s EsIoctl.get_titles_count ins outs vec m w =
      some (req_get_titles_count E ins outs vec m w)
  run_ioctlv s EsIoctl.get_titles ins outs vec m w = some (req_get_titles E ins outs vec m w)
  run_ioctlv s EsIoctl.get_title_contents_count ins outs vec m w =
      some (req_get_title_contents_count E ins outs vec m w)
  run_ioctlv s EsIoctl.get_title_contents ins outs vec m w =
      some (req_get_title_contents E ins outs vec m w)
  run_ioctlv s EsIoctl.get_num_ticket_views ins outs vec m w =
      some (req_get_num_ticket_views E ins outs vec m w)
  run_ioctlv s EsIoctl.get_ticket_views ins outs vec m w =
      some (req_get_ticket_views E ins outs vec m w)
  run_ioctlv s EsIoctl.get_tmd_view_size ins outs vec m w =
      some (req_get_tmd_view_size E ins outs vec m w)
  run_ioctlv s EsIoctl.get_tmd_view ins outs vec m w = some (req_get_tmd_view E ins outs vec m w)
  run_ioctlv s EsIoctl.di_get_ticket_view ins outs vec m w =
      some (req_di_get_ticket_view E s ins outs vec m w)
  run_ioctlv s EsIoctl.get_data_dir ins outs vec m w = some (req_get_data_dir E ins outs vec m w)
  run_ioctlv s EsIoctl.get_device_cert ins outs vec m w =
      some (req_get_device_cert E ins outs vec m w)
  run_ioctlv s EsIoctl.get_title_id ins outs vec m w = some (req_get_title_id E s ins outs vec m w)
  run_ioctlv s (EsIoctl.other n) ins outs vec m w = some (EsError.invalid, m, w)

  -- `ReqIoctlv`
  unfoldable pub req_ioctlv :
      TitleContext → EsIoctl → ℕ → ℕ → ℕ → Buffer → World → Option (Answer E)
  req_ioctlv s cmd ins outs base m w =
      if leb 32 ins || leb 32 outs
      then some (EsError.invalid, m, w)
      else let m1 = null_vectors (ins + outs) base m in
        run_ioctlv s cmd ins outs (vectors_at m1 base) m1 w

  -- `IPCRequest`
  unfoldable pub ipc_request : TitleContext → Request → Buffer → World → Option (Answer E)
  ipc_request s (open_path path) m w =
      some ((if not (str_eq path (codes "~dev/es")) then IosError.not_found else IosError.ok), m, w)
  ipc_request s close m w = some (IosError.ok, m, w)
  ipc_request s (ioctlv cmd ins outs base) m w = req_ioctlv s (ioctl_of cmd) ins outs base m w
  ipc_request s other m w = some (EsError.invalid, m, w)

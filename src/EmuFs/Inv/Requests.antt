-- ===== src/EmuFs/Inv/Requests.antt =====
-- Every request keeps the invariant of the descriptor tables.
use saoirse.Prelude.{
  ℕ, ◌-◌, ◌≡◌, Option, none, some, List, [], ◌∷◌, arith, ℤ, refl, codes, str_eq, take, drop,
  Bool-cases, inl, inr,
}
use saoirse.EmuFs.Env.{Env, Command, open_file, close, read, write, seek, ioctl, ioctlv, reply}
use saoirse.EmuFs.Types.{State, Reply, direct_handle_base}
use saoirse.EmuFs.Table.{slot}
use saoirse.EmuFs.IosError
use saoirse.EmuFs.Requests.{say}
use saoirse.EmuFs.Paths.{starts_with_char}
use saoirse.EmuFs.Dispatch.{
  forward_request, open_manager, open_path, open_replaced, open_direct, reset, serve, dispatch,
  dispatch_direct, ipc_request,
}
use saoirse.EmuFs.Inv.{Inv}
use saoirse.EmuFs.Inv.Files.{req_read-Inv, req_write-Inv, req_seek-Inv, req_close-Inv}
use saoirse.EmuFs.Inv.Open.{req_proxy_open-Inv}
use saoirse.EmuFs.Inv.Commands.{same_tables-Inv, req_ioctl-Inv}
use saoirse.EmuFs.Inv.Vectors.{req_ioctlv-Inv}

module _ (E : Env) {s : State E} (inv : Inv E s) where
  forward_request-Inv :
      (fd : ℤ) (cmd : Command) {r : Reply E} {s' : State E}
      → forward_request E fd cmd s ≡ some (r, s')
      → Inv E s'
  unfolding forward_request
  forward_request-Inv fd (open_file path mode uid gid) h = cc
  forward_request-Inv fd _ h = same_tables-Inv E inv (ground arith) (ground arith)

  open_manager-Inv :
      (uid gid : ℕ) {r : Reply E} {s' : State E}
      → open_manager E uid gid s ≡ some (r, s')
      → Inv E s'
  unfolding open_manager
  open_manager-Inv uid gid h = same_tables-Inv E inv (ground arith) (ground arith)

  open_direct-Inv : {r : Reply E} {s' : State E} → open_direct E s ≡ some (r, s') → Inv E s'
  unfolding open_direct
  open_direct-Inv h = record {
    files_ready = λ j. ground (arith, inv.files_ready j);
    direct_fds = λ j. ground (arith, inv.direct_fds j);
  }

  say-Inv : (ret : ℤ) {r : Reply E} {s' : State E} → say E ret s ≡ some (r, s') → Inv E s'
  say-Inv ret h = same_tables-Inv E inv (ground arith) (ground arith)

  open_path-Inv :
      (fd : ℤ) (path raw : List ℕ) (mode uid gid : ℕ) {r : Reply E} {s' : State E}
      → open_path E fd path raw mode uid gid s ≡ some (r, s')
      → Inv E s'
  unfolding open_path
  open_path-Inv fd path raw mode uid gid {r} {s'} h = ground (
    arith,
    inv,
    open_manager-Inv uid gid {r = r} {s' = s'},
    req_proxy_open-Inv E inv path mode {r = r} {s' = s'},
    forward_request-Inv fd (open_file raw mode uid gid) {r = r} {s' = s'},
  )

  dispatch-Inv :
      (fd : ℤ) (cmd : Command) {r : Reply E} {s' : State E}
      → dispatch E fd cmd s ≡ some (r, s')
      → Inv E s'
  unfolding dispatch open_replaced
  dispatch-Inv fd (open_file raw mode uid gid) {r} {s'} h =
      elim (Bool-cases (starts_with_char b'$' raw)) [
        | inl e ↦ open_path-Inv fd (b'/' ∷ drop 1 (take 64 raw)) raw mode uid gid (rw e at h)
        | inr e ↦ elim (Bool-cases (str_eq raw (codes "/dev/saoirse/file"))) [
          | inl f ↦ open_direct-Inv (rw f at (rw e at h))
          | inr f ↦ say-Inv IosError.not_found (rw f at (rw e at h))
        ]
      ]
  dispatch-Inv fd close h = req_close-Inv E inv fd h
  dispatch-Inv fd (read len) h = req_read-Inv E inv fd len h
  dispatch-Inv fd (write input) h = req_write-Inv E inv fd input h
  dispatch-Inv fd (seek where_ whence) h = req_seek-Inv E inv fd where_ whence h
  dispatch-Inv fd (ioctl cmd in_ io) h = req_ioctl-Inv E inv fd cmd in_ io h
  dispatch-Inv fd (ioctlv cmd in_count io_count vec) h =
      req_ioctlv-Inv E inv fd cmd in_count io_count vec h
  dispatch-Inv fd reply h = same_tables-Inv E inv (ground arith) (ground arith)

  dispatch_direct-Inv :
      (fd : ℤ) (cmd : Command) {r : Reply E} {s' : State E}
      → dispatch_direct E fd cmd s ≡ some (r, s')
      → Inv E s'
  unfolding dispatch_direct
  dispatch_direct-Inv fd cmd {r} {s'} h =
      ground (
        arith,
        inv,
        dispatch-Inv (s.direct (slot fd - direct_handle_base)).fd cmd {r = r} {s' = s'},
      )

  pub ipc_request-Inv :
      (fd : ℤ) (cmd : Command) {r : Reply E} {s' : State E}
      → ipc_request E fd cmd s ≡ some (r, s')
      → Inv E s'
  unfolding ipc_request
  ipc_request-Inv fd cmd {r} {s'} h = ground (
    arith,
    inv,
    forward_request-Inv fd cmd {r = r} {s' = s'},
    dispatch_direct-Inv fd cmd {r = r} {s' = s'},
    dispatch-Inv fd cmd {r = r} {s' = s'},
  )

pub reset-Inv : (E : Env) (w : E.World) → Inv E (reset E w)
unfolding reset
reset-Inv E w = record { files_ready = λ j. ground arith; direct_fds = λ j. ground arith }

-- A run that is answered answers its first request, and the others from the state that leaves.
pub serve_split :
    (E : Env) (s : State E) (fd : ℤ) (cmd : Command) (reqs : List (ℤ × Command))
    {rs : List (Reply E)} {t : State E}
    → serve E ((fd, cmd) ∷ reqs) s ≡ some (rs, t)
    → (r : Reply E) × (s' : State E) × (rs' : List (Reply E)) × (ipc_request E fd cmd s
        ≡ some (r, s'))
      × (serve E reqs s' ≡ some (rs', t))
unfolding serve
serve_split E s fd cmd reqs {rs} {t} h = first (ipc_request E fd cmd s) refl
  where
    Split : Type 0
    Split =
        (r : Reply E) × (s' : State E) × (rs' : List (Reply E)) × (ipc_request E fd cmd s
          ≡ some (r, s'))
        × (serve E reqs s' ≡ some (rs', t))

    second :
        (r : Reply E) (s' : State E)
        → ipc_request E fd cmd s ≡ some (r, s')
        → (o : Option (List (Reply E) × State E)) → serve E reqs s' ≡ o
        → Split
    second r s' e none f = cc
    second r s' e (some (rs', t')) f = (r, s', rs', e, ground arith)

    first : (o : Option (Reply E × State E)) → ipc_request E fd cmd s ≡ o → Split
    first none e = cc
    first (some (r, s')) e = second r s' e (serve E reqs s') refl

serve_from-Inv :
    (E : Env) (reqs : List (ℤ × Command)) {s : State E}
    → Inv E s
    → {rs : List (Reply E)} {t : State E} → serve E reqs s ≡ some (rs, t)
    → Inv E t
unfolding serve
serve_from-Inv E [] inv h = same_tables-Inv E inv (ground arith) (ground arith)
serve_from-Inv E ((fd, cmd) ∷ reqs) {s} inv h =
    let (r, s', rs', first, rest) = serve_split E s fd cmd reqs h in
    serve_from-Inv E reqs (ipc_request-Inv E inv fd cmd first) rest

pub serve-Inv :
    (E : Env) (w : E.World) (reqs : List (ℤ × Command)) {rs : List (Reply E)} {s : State E}
    → serve E reqs (reset E w) ≡ some (rs, s)
    → Inv E s
serve-Inv E w reqs h = serve_from-Inv E reqs (reset-Inv E w) h

-- ===== src/EmuEs/Ioctl.antt =====
-- common/System/ES.hpp, `ESIoctl` and the sizes of the structures; the commands that the resource
-- manager has no case for are `other`.
use saoirse.Prelude.{ℕ, ◌==◌, if◌then◌else◌}

pub data EsIoctl : Type 0 where
  get_device_id launch_title get_owned_titles_count get_titles_count get_titles : EsIoctl
  get_title_contents_count get_title_contents get_num_ticket_views get_ticket_views : EsIoctl
  get_tmd_view_size get_tmd_view di_get_ticket_view get_data_dir get_device_cert : EsIoctl
  get_title_id : EsIoctl
  other : ℕ → EsIoctl

unfoldable pub number : EsIoctl → ℕ
number EsIoctl.get_device_id = 0x07
number EsIoctl.launch_title = 0x08
number EsIoctl.get_owned_titles_count = 0x0C
number EsIoctl.get_titles_count = 0x0E
number EsIoctl.get_titles = 0x0F
number EsIoctl.get_title_contents_count = 0x10
number EsIoctl.get_title_contents = 0x11
number EsIoctl.get_num_ticket_views = 0x12
number EsIoctl.get_ticket_views = 0x13
number EsIoctl.get_tmd_view_size = 0x14
number EsIoctl.get_tmd_view = 0x15
number EsIoctl.di_get_ticket_view = 0x1B
number EsIoctl.get_data_dir = 0x1D
number EsIoctl.get_device_cert = 0x1E
number EsIoctl.get_title_id = 0x20
number (EsIoctl.other n) = n

-- `static_cast<ES::ESIoctl>`
unfoldable pub ioctl_of : ℕ → EsIoctl
ioctl_of n =
    if n == 0x07
    then EsIoctl.get_device_id
    else if n == 0x08
    then EsIoctl.launch_title
    else if n == 0x0C
    then EsIoctl.get_owned_titles_count
    else if n == 0x0E
    then EsIoctl.get_titles_count
    else if n == 0x0F
    then EsIoctl.get_titles
    else if n == 0x10
    then EsIoctl.get_title_contents_count
    else if n == 0x11
    then EsIoctl.get_title_contents
    else if n == 0x12
    then EsIoctl.get_num_ticket_views
    else if n == 0x13
    then EsIoctl.get_ticket_views
    else if n == 0x14
    then EsIoctl.get_tmd_view_size
    else if n == 0x15
    then EsIoctl.get_tmd_view
    else if n == 0x1B
    then EsIoctl.di_get_ticket_view
    else if n == 0x1D
    then EsIoctl.get_data_dir
    else if n == 0x1E
    then EsIoctl.get_device_cert
    else if n == 0x20
    then EsIoctl.get_title_id
    else EsIoctl.other n

-- `sizeof(ES::Ticket)` and `sizeof(ES::TicketView)`
abbrev pub ticket_size : ℕ
ticket_size = 0x2A4

abbrev pub ticket_view_size : ℕ
ticket_view_size = 0xD8

-- the offset of `info.titleID` in an `ES::Ticket`
abbrev pub ticket_title_id : ℕ
ticket_title_id = 0x1DC

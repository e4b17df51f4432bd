-- ===== src/Lib.antt =====
-- Saoirse: the parts of the IOS modules and of the channel that emulate and patch what a game sees.
--
-- Saoirse starts a Wii game with its save files and parts of its disc replaced. A channel on the
-- PowerPC builds a list of patches of the game's memory (channel/Patch/PatchList.cpp). On the
-- other processor, IOS threads serve the requests of the game: the emulated file system
-- (ios/IOS/EmuFS.cpp) sends paths of save files to a FAT volume and the others to the real file
-- system, and the emulated disc interface (ios/EmuDI/EmuDI.cpp) reads parts of the disc from files
-- of the volume, by a table that the channel sends.
--
-- Prelude holds what all share: tests, lists and integers over the native numbers, words of 32 and
-- 64 bits with the wrap-around written out, and texts as lists of codes.
--
-- PatchList is channel/Patch/PatchList.cpp: the list of patches is the state, the memory of the game
-- a function from addresses to bytes. PatchList.Apply is about importing and applying, and
-- PatchList.Branch about the branch instruction that is poked.
--
-- EmuFs is ios/IOS/EmuFS.cpp. EmuFs.Env has what the file calls and does not implement, FatFs and
-- the IOS system calls, as a record of functions over one `World`. EmuFs.Types has the state: the
-- table of slots (`sFileArray`), the direct files (`sDirectFileArray`), the manager's descriptors
-- (`realFS`) and the world; a handler takes the state to a reply and a state, and `none` stands for
-- a failed assertion or an access outside an array. EmuFs.Table has the functions on the tables
-- (RegisterFileDescriptor, FindAvailableFileDescriptor, ...), EmuFs.Paths those on paths,
-- EmuFs.Requests ReqProxyOpen to ReqSeek, EmuFs.Ioctl and EmuFs.Ioctl.Rename ReqIoctl, EmuFs.Ioctlv
-- ReqIoctlv, and EmuFs.Dispatch ForwardRequest, OpenReplaced, IPCRequest and the loop of
-- ThreadEntry. The proofs are in EmuFs.Inv (the invariant and each handler), EmuFs.Search,
-- EmuFs.Reopen, EmuFs.Access, EmuFs.Answers and EmuFs.Slots.
--
-- EmuDi is ios/EmuDI/EmuDI.cpp. EmuDi.Table has the table of patches, its search and what the file
-- calls (FatFs, the virtual disc, the real drive); EmuDi.Disc has EmuIoctl, EmuIoctlv and RealRead,
-- EmuDi.Read the function Read, and EmuDi.Requests the variables of the module, DI_DoNewIOCTL and
-- the requests. A buffer of the caller is a function from positions to bytes. The proofs are in
-- EmuDi.Search, EmuDi.Bounds, EmuDi.Exact, EmuDi.Straddle and EmuDi.Guards. EmuDi.Iso is
-- ios/EmuDI/ISO.cpp, the disc image that the interface serves: ReadRaw, ReadAndDecryptBlock,
-- ReadFromPartition, ReadDiskID, ReadTMD and OpenPartition over the members of `ISO` and what it
-- calls; EmuDi.Iso.Cache, EmuDi.Iso.Offsets, EmuDi.Iso.Blocks, EmuDi.Iso.Partition and
-- EmuDi.Iso.Edges have the proofs. The requests of
-- EmuDi.Requests call any virtual disc, by the operations that EmuDi.Table lists.
--
-- Disk is ios/Disk, the storage devices. Disk.Usb has CtrlMsg and IntrBulkMsg of USB.cpp and the
-- calls of the resource manager as a record of functions; Disk.Storage and Disk.Storage.Init are
-- USBStorage.cpp, SCSI commands over these messages, and Disk.Storage.Transfer,
-- Disk.Storage.Stream, Disk.Storage.Drive, Disk.Storage.Total and Disk.Storage.Ready have the
-- proofs. Disk.DeviceMgr and Disk.DeviceMgr.Usb are DeviceMgr.cpp, with the members of DeviceMgr.hpp:
-- the table of devices and USB handles is the state, with the
-- notices that IPCLog is given; a step of Disk.DeviceMgr.Life is a round of Run, or a call that FatFs
-- makes. Disk.DeviceMgr.Pass, Calls, Induct, Notices, Trace,
-- Owners and Refused have the proofs. Disk.FatFs is
-- FatFS.cpp, the calls of FatFs over the manager, and Disk.FatFs.Dates its time stamps; the proofs
-- are in Disk.FatFs.Errors, Disk.FatFs.Drive (a read of a USB drive through all parts),
-- Disk.FatFs.Dates.Calendar, Disk.FatFs.Dates.Eras and Disk.FatFs.Dates.Stamps.
--
-- Kernel is UnalignedMemcpy of ios/IOS/System.cpp, copies with word writes to the first memory, and
-- Kernel.Clock the clock of that file: SetTime, GetTime and the rounds of the timer thread.
--
-- EmuEs is ios/IOS/EmuES.cpp, which stands before the real ES. EmuEs.Ioctl and EmuEs.EsError have the
-- numbers of common/System/ES.hpp, and EmuEs.Calls the calls of common/System/ES.cpp, over a real
-- `/dev/es` that is a function from a command, its input vectors and the length of its output vector
-- to a result and the bytes it writes. EmuEs.Commands has the title context, DIVerify and the cases of
-- ReqIoctlv, EmuEs.Requests the whole of it and IPCRequest. The memory of the callers is one function
-- from addresses to bytes, the array of vectors included; the kept ticket and local variables lie
-- outside it. EmuEs.Nulled has what the loop over the empty vectors leaves, EmuEs.Layout the table of
-- the vectors, EmuEs.Frame the memory that a request may change, and EmuEs.Title the title
-- context together with EmuDi.Iso.
--
-- IpcLog is ios/IOS/IPCLog.cpp: the three queues are the state, each call of a thread is a function
-- that gives nothing while it would wait, and a step is such a call. IpcLog.Counts and IpcLog.Hang
-- have the proofs. IpcLog.Client is the other end, the class of the same name in
-- channel/Main/IOSBoot.cpp; the queue of its handlers is a list without a bound.
--
-- Apploader is channel/Apploader/Apploader.cpp and AppPayload.cpp, the loading of a game; the program
-- on the disc that gives the segments is a parameter. Apploader.Boot is about the choice of a partition.
--
-- Arch is channel/Main/Arch.cpp, the reader of an archive in memory; Arch.Layout describes the format,
-- and Arch.Parse and Arch.Lookup have the proofs.
--
-- Riivolution is channel/Patch/Riivolution.cpp: the list of patch files that storage devices bring.
-- The file system, the allocation and the XML library are a record of functions. Riivolution.Paths,
-- Riivolution.Removal and Riivolution.Load have the proofs.
--
-- Loops over the slots and over the bytes of a copy take as many rounds as the code's own bounds
-- give. The search of the patch table takes the count of entries as rounds: what is left at least
-- halves. Read takes two rounds more than the table has entries: each round moves to the next
-- entry, and past the last one the loop returns; EmuDi.Bounds shows that these are enough. ReadRaw
-- takes four rounds, since it knows two parts and fails at a third; a read of a partition takes one
-- more than the whole blocks in its length. SCSITransfer takes two rounds more than the data has whole
-- chunks. The searches of strings in Arch take a round for each address that is left, and its loops one
-- for each byte of the file and of the table of names; Arch.Lookup shows that these are enough for an
-- archive of members with short names. The loops of Riivolution over a directory and over the nodes of
-- a tree, and that of Apploader over the segments, take as many rounds as bounds of the environment
-- say.
--
-- Not modelled: ios/FAT is a copy of FatFs and boot/Lzma* of the 7-Zip SDK; the constructor of the
-- disc image opens its files; ios/Disk/SDCard.cpp is a copy of wiisd.c of libogc, and the ioctls of
-- USB.cpp go to the resource manager; the table of globals and the code handler are writes to fixed
-- addresses; the allocations and locks of FatFS.cpp, kernel patches, system calls and
-- start-up are machine code; the user interface and the log are output.
-- Log messages leave no trace here, and the flush of caches and the interrupts change no byte.
pub mod Prelude
pub mod PatchList
pub mod EmuFs
pub mod EmuDi
pub mod Apploader
pub mod Arch
pub mod Disk
pub mod EmuEs
pub mod IpcLog
pub mod Kernel
pub mod Riivolution

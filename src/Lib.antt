-- ===== src/Lib.antt =====
-- systemboot: verification of the boot programs.
--
-- The program replaces the last stages of the firmware: it finds a boot configuration on a disk,
-- in an archive or in the VPD variables of the flash chip, measures it into the TPM, and starts
-- its kernel by kexec. The library follows the packages of the repository.
--
--   Base, Text: shared definitions, and the functions of Go's strings, strconv, hex and path
--     packages that the sources call, written from their documentation. Texts are lists of
--     bytes, white space and digits are ASCII.
--   Platform: calls that leave the program. A Platform chooses what each call returns from all
--     the calls made before it; M is code that makes calls and returns a value, an error or a
--     run-time panic. The calls are kept in a Trace, the latest first. Platform.Rules has a
--     rule for each way to build code.
--   Walk: filepath.Walk and filepath.Rel, over a file tree that the Platform reports.
--   LocalBoot.Grub: localboot/grub.go, ParseGrubCfg (step is the body of its loop on one line,
--     run the loop, Parser its variables), isValidFsUUID and unquote. LocalBoot.Scan:
--     ScanGrubConfigs, whose walk function is visit_grub.
--   LocalBoot.Command: localboot/main.go; mount_by_guid is mountByGUID, boot_grub_mode
--     BootGrubMode with its loops mount_every, scan_every, boot_index and boot_every,
--     boot_path_mode BootPathMode, localboot main.
--   BootConfig, BootConfig.Boot: pkg/bootconfig/bootconfig.go, the structure, IsValid,
--     fileNames, bytestream and Boot.
--   BootConfig.Manifest, BootConfig.Zip: pkg/bootconfig/manifest.go and zipconfig.go;
--     check_signature and unpack are the two halves of FromZip, read_at is ReadAt of
--     memoryZipReader.
--   Storage: pkg/storage/blockdev.go, BlockStatFromBytes (Stat), Summary, getUUID with tryVFAT
--     and tryEXT4 (Uuid), PartitionsByFsUUID (Device), GetBlockStats (Stats), GetGPTTable and
--     PartitionsByGUID (Gpt), GetMountpointByDevice (Mounts). Storage.Filesystem:
--     pkg/storage/filesystem.go.
--   Crypto.Measure, Crypto.Keys: pkg/crypto/measure.go and ed25519.go.
--   Vpd: pkg/vpd/vpd.go, Get and Set; Vpd.All: GetAll, put is the assignment to its map;
--     Walk.Order turns a walk into a loop over the paths in their order. Vpd.Store is the
--     contract of the file system below them, and Vpd.Store.Memory a store that keeps it.
--   VpdBootManager: cmds/vpdbootmanager; Add is addBootEntry, Command the parsers of the flags,
--     add, cli and main.
--   Booter: pkg/booter, the booters with the commands that they run, GetBooterFor
--     (get_booter_for) and GetBootEntries (get_boot_entries).
--   Checker: pkg/checker/checker.go, Run; Checker.Interfaces: the checks and remediations of
--     interfaces.go, dmesg.go and commandexecutor.go; Checker.Colours: colours.go.
--     FixMyNetBoot: cmds/fixmynetboot/main.go.
--   NetBoot: netboot/main.go, the flags, getScheme, loadCaCerts and getClientForBootfile;
--     NetBoot.Boot: dhcp6, dhcp4 and boot (fetch_loop is the loop of the attempts, use_response
--     what follows it); NetBoot.Command: main. NetBoot.Keeping and LocalBoot.Command.Keeping
--     say what a whole command keeps of the calls so far, given what its parts keep.
--   Recovery, Rng: pkg/recovery and pkg/rng/entropy.go; feed_round is one round of the
--     goroutine of UpdateLinuxRandomness.
--   Uinit: uinit/main.go; default_rounds is its endless loop, Uinit.Added joins it with the
--     tool that writes the entries.
--
-- The components meet as in the sources: GetBootEntries reads the variables that addBootEntry
-- writes and measures them, ParseGrubCfg makes the configurations that Boot starts and asks
-- PartitionsByFsUUID for the partition of a file system, whose UUID getUUID read, FromZip loads
-- the public key from its file, the local boot command mounts what GetBlockStats lists and starts
-- what ScanGrubConfigs finds there, and the init command runs the booters of GetBootEntries.
--
-- Code from other repositories is a parameter: Json and Formats for encoding/json and archive/zip,
-- Keys for encoding/pem, crypto/x509 and ed25519, Net for net/url, net/http and the DHCP library,
-- Tools for package flag, and the Platform for files, the TPM and kexec. A theorem names the
-- behaviour of them that it relies on as a hypothesis.
--
-- Loops are recursions on a list, or on a number that counts the rounds: 9999 in GetBootEntries
-- and 9998 in addBootEntry, as in the sources. The loop over the blocks of a PEM file has one
-- round more than the file has bytes, which is enough where each block shortens what is left. The
-- endless loops of the init command and of the entropy feeder are given a number of rounds, and
-- their theorems hold for every number. The text of a number in decimal has one round for each
-- digit or more.
--
-- Not modelled: what is printed, file permissions, the signal handling of the init command, and
-- the deferred closing of files by the goroutine of pkg/rng, whose loop does not end. A log.Fatal
-- is the error exited, which the code above it passes on; the errors that the program makes with a
-- text are values of message or wrapped, without the values that the text prints. File trees do
-- not change during a walk. A Go int is an integer without bound where it is a parameter, since no
-- arithmetic is done on it. The files that a bufio.Scanner reads are read as a whole: its limit on
-- the length of a line, and the lines that it gives in front of a failed read, are left out. Words
-- are separated by the white space of ASCII. The directory of the variables is a parameter
-- vpd_dir, which stands for the variable VpdDir of package vpd; uinit runs with its default value,
-- /sys/firmware/vpd, for it never sets it.
pub mod Base
pub mod Text
pub mod Platform
pub mod Walk
pub mod Crypto
pub mod Vpd
pub mod BootConfig
pub mod Storage
pub mod LocalBoot
pub mod VpdBootManager
pub mod Booter
pub mod Checker
pub mod NetBoot
pub mod FixMyNetBoot
pub mod Recovery
pub mod Rng
pub mod Uinit

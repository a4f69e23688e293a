-- ===== src/Disk/Transfers.antt =====
-- The operations on files of netdisk4tc/disk.c that are empty: each succeeds and does nothing.
use netdisk4tc.Base.{Str}
use netdisk4tc.Disk.{DiskStatus, ndisk_ok, DiskEntry, Disk}

unfoldable pub ndisk_download : DiskEntry → Disk → Str → Str → DiskStatus
ndisk_download entry disk remote local = ndisk_ok

unfoldable pub ndisk_upload : DiskEntry → Disk → Str → Str → DiskStatus
ndisk_upload entry disk local remote = ndisk_ok

unfoldable pub ndisk_copy : DiskEntry → Disk → Str → Str → DiskStatus
ndisk_copy entry disk src des = ndisk_ok

unfoldable pub ndisk_move : DiskEntry → Disk → Str → Str → DiskStatus
ndisk_move entry disk src des = ndisk_ok

unfoldable pub ndisk_erasure : DiskEntry → Disk → Str → DiskStatus
ndisk_erasure entry disk path = ndisk_ok

unfoldable pub ndisk_mkdir : DiskEntry → Disk → Str → DiskStatus
ndisk_mkdir entry disk path = ndisk_ok

unfoldable pub ndisk_info : DiskEntry → Disk → Str → DiskStatus
ndisk_info entry disk path = ndisk_ok

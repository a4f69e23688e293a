-- ===== src/Tests/Token.antt =====
-- A token for one of the disks of Tests.Disk.
use netdisk4tc.Base.{◌>>=◌}

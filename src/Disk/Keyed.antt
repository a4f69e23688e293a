-- ===== src/Disk/Keyed.antt =====
-- Disks under their nicknames: the root shows the nickname of a disk, and a path is looked up by the key
-- of its entry.

use netdisk4tc.Base.{◌≡◌, some, List, [], ◌∷◌, ◌++◌}
use netdisk4tc.Dictionary.{DictEntry}
use netdisk4tc.Disk.{Disk, DiskDestroyer}

-- Each entry is a disk whose nickname is the key.
abbrev pub Keyed : List (DictEntry Disk DiskDestroyer) → Type 0
Keyed [] = Unit
Keyed (e ∷ es) = ((d : Disk) × (e.value ≡ some d) × (d.nickname ≡ some e.key)) × Keyed es

pub Keyed-append :
    (es : List (DictEntry Disk DiskDestroyer)) (e : DictEntry Disk DiskDestroyer)
    → Keyed es
    → Keyed (e ∷ [])
    → Keyed (es ++ (e ∷ []))
Keyed-append [] e w w' = w'
Keyed-append (e' ∷ es) e (here, w) w' = (here, Keyed-append es e w w')

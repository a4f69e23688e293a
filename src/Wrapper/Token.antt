-- ===== src/Wrapper/Token.antt =====
-- A token that a script gives, and a restart.
use netdisk4tc.Base.{some, List, [], ◌∷◌, if◌then◌else◌, Str, eq_str, ◌>>=◌}
use netdisk4tc.Disk.{Disk}
use netdisk4tc.Disk.Saved.{Config}

-- The disks after the first one with a nickname has got a token.
abbrev pub with_token : Str → Str → List Config → List Config
with_token key token [] = []
with_token key token (c ∷ cs) =
    (record c { token = if eq_str key c.nickname then some token else c.token })
    ∷ (let rest = with_token key token cs in if eq_str key c.nickname then cs else rest)

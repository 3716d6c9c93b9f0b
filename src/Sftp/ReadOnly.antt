-- ===== src/Sftp/ReadOnly.antt =====
-- application/src/ssh/sftp.rs: the requests that the read-only setting does not reach.
use cyrogopus.Prelude.{Bool, ◌≡◌, refl}
use cyrogopus.Cap.{PathBuf}
use cyrogopus.Sftp.{View, OpenFlags, is_ignored}
use cyrogopus.Sftp.Handles.{SftpSession}
use cyrogopus.Sftp.Files.{open_file}
use cyrogopus.Sftp.Extended.{copy_file}

-- The read-only setting makes no difference to the opening of a file, with whatever flags, those
-- that create and truncate it included, nor to the copying of one.
open_file-read_only :
    (v : View) (b : Bool) (s : SftpSession) (p q : PathBuf) (f : OpenFlags) (overwrite : Bool)
    → (open_file (record v { read_only = b }) s p f ≡ open_file v s p f)
      × (copy_file (record v { read_only = b }) p q overwrite ≡ copy_file v p q overwrite)
unfolding open_file copy_file is_ignored
open_file-read_only v b s p q f overwrite = (refl, refl)

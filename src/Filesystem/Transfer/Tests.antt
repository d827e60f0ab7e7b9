-- ===== src/Filesystem/Transfer/Tests.antt =====
-- Concrete uploads and downloads.
use openshift_console.Prelude.{◌≡◌, Bool, true, false, List, [], ◌∷◌, ltb, refl, some}
use openshift_console.Prelude.Text.{codes}
use openshift_console.Filesystem.Paths.{join_path}
use openshift_console.Filesystem.Transfer.{
  Bytes, UploadCall, Message, finished, upload_file, chunk_size, read_file_bytes,
}
use openshift_console.Filesystem.Transfer.Upload.{
  calls_of, Carries, Ends, upload_file-Carries, upload_file-Ends,
}
use openshift_console.Filesystem.Transfer.Download.{contents_of, read_file_bytes-contents}

abbrev file : Bytes
file = 1 ∷ 2 ∷ 3 ∷ 4 ∷ 5 ∷ []

abbrev takes_all : UploadCall → Bool
takes_all call = true

-- Refuses what lies behind the second byte.
abbrev takes_some : UploadCall → Bool
takes_some call = ltb call.offset 2

upload_file-Carries_example :
    ((upload_file takes_all (codes "/") (codes "f") file 2).1 ≡ finished)
    × Carries
        (join_path (codes "/") (codes "f"))
        (chunk_size 2)
        0
        file
        (calls_of (upload_file takes_all (codes "/") (codes "f") file 2).0)
upload_file-Carries_example =
    upload_file-Carries takes_all (codes "/") (codes "f") file 2 (λ (call : UploadCall). refl)

upload_file-Ends_example :
    Ends takes_some
      (upload_file takes_some (codes "/") (codes "f") file 2).1
      (calls_of (upload_file takes_some (codes "/") (codes "f") file 2).0)
upload_file-Ends_example = upload_file-Ends takes_some (codes "/") (codes "f") file 2

abbrev messages : List Message
messages =
    record { total_size = 3; contents = [] }
    ∷ record { total_size = 0; contents = 1 ∷ 2 ∷ [] }
    ∷ record { total_size = 0; contents = 3 ∷ [] }
    ∷ []

read_file_bytes-contents_example : read_file_bytes messages false ≡ some (contents_of messages)
read_file_bytes-contents_example = read_file_bytes-contents messages

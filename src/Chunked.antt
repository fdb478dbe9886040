-- ===== src/Chunked.antt =====
-- api/app/chunked.py: resumable uploads. The staging directory is a dictionary of files, and a file
-- a list of bytes. Reads and writes of the file system succeed.
pub mod Resume
mod Tests
use gridix_infra.Prelude.{
  ℕ, Bool, not, ◌+◌, ◌==◌, Option, none, some, List, [], ◌++◌, length, if◌then◌else◌,
}
use gridix_infra.Prelude.Dict.{get, put, keep, nat_eq}
use gridix_infra.Models.Rows.{Uuid}

abbrev pub Bytes : Type 0
Bytes = List ℕ

-- `ChunkedUploadStaging`
abbrev pub Staging : Type 0
Staging = List (Uuid × Bytes)

unfoldable pub create : Uuid → Staging → Staging
create id staging = put id [] staging

abbrev pub size_of : Option Bytes → ℕ
size_of none = 0
size_of (some bytes) = length bytes

unfoldable pub received : Uuid → Staging → ℕ
received id staging = size_of (get id staging)

-- Opening a file for appending creates it.
abbrev pub contents : Option Bytes → Bytes
contents none = []
contents (some bytes) = bytes

pub data Appended : Type 0 where
  appended : ℕ → Staging → Appended
  offset_mismatch : ℕ → ℕ → Appended

unfoldable pub append : Uuid → ℕ → Bytes → Staging → Appended
unfolding received
append id offset chunk staging =
    let current = received id staging in
    if not (offset == current)
    then offset_mismatch current offset
    else appended (current + length chunk) (put id (contents (get id staging) ++ chunk) staging)

-- `None` stands for the FileNotFoundError.
unfoldable pub assemble : Uuid → Staging → Option Bytes
assemble id staging = get id staging

unfoldable pub cleanup : Uuid → Staging → Staging
cleanup id staging = keep (λ other. not (other == id)) staging

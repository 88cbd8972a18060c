-- ===== src/Vfs.antt =====
-- src/fs/mod.rs: each call mounts the volume and passes on to the file system.
use ferros.Prelude.{M, ◌>>=◌, Bytes}
use ferros.Block.{BlockDevice}
use ferros.Fat.Volume.{FatError}
use ferros.Fat.Volume
use ferros.Fat.Path.{Node, Metadata}
use ferros.Fat.Path
use ferros.Fat.File

module _ (d : BlockDevice) where
  unfoldable pub open_file : Bytes → M d.Dev FatError Bytes
  open_file path = Volume.mount d >>= λ volume. Path.read_file d volume path

  unfoldable pub lookup : Bytes → M d.Dev FatError Node
  lookup path = Volume.mount d >>= λ volume. Path.lookup d volume path

  unfoldable pub write_file : Bytes → Bytes → M d.Dev FatError (Unit {0})
  write_file path content = Volume.mount d >>= λ volume. File.write_file d volume path content

  unfoldable pub mkdir : Bytes → M d.Dev FatError (Unit {0})
  mkdir path = Volume.mount d >>= λ volume. File.mkdir d volume path

  unfoldable pub unlink : Bytes → M d.Dev FatError (Unit {0})
  unlink path = Volume.mount d >>= λ volume. File.unlink d volume path

  unfoldable pub rmdir : Bytes → M d.Dev FatError (Unit {0})
  rmdir path = Volume.mount d >>= λ volume. File.rmdir d volume path

  unfoldable pub stat : Bytes → M d.Dev FatError Metadata
  stat path = Volume.mount d >>= λ volume. Path.stat d volume path

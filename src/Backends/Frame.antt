-- ===== src/Backends/Frame.antt =====
-- What a pull leaves alone.
use llama_chip.Base.{Text}
use llama_chip.Backends.Disk.{Platform, server_bin_name}
use llama_chip.Backends.Pull.{Call}
use llama_chip.Backends.Flat.{IsSingle}
use llama_chip.Backends.Fetch.{DiskOf}

-- A property of the disk that a directory does not break: that it is made, that a single name
-- below it is changed, and that its server becomes executable.
pub record Frames {W : Type 0} (disk : DiskOf W) (p : Platform) (Inv : W → Type 0) (dir : Text)
    : Type 0 where
  pub dir_made : (w : W) → Inv w → Inv (disk.make_dir dir w).1
  pub entry_changed : (c : Call) (w : W) → IsSingle c → Inv w → Inv (disk.run dir c w)
  pub mode_changed :
      (w : W) → Inv w → Inv (disk.make_executable (p.join dir (server_bin_name p.goos)) w)

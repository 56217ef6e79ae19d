-- ===== src/Log/Structs.antt =====
-- The structures that cfs/src/log.c writes to the log. Those of the system and of libfuse are the
-- records of the fields that are written; a field that is an address is its number.
use fusefs_block.Base.{ℤ, CString}

pub record FuseContext : Type 0 where
  pub fuse : ℤ
  pub uid : ℤ
  pub gid : ℤ
  pub pid : ℤ
  pub private_data : ℤ
  pub logfile : ℤ
  pub rootdir : CString
  pub umask : ℤ

pub record FuseConnInfo : Type 0 where
  pub proto_major : ℤ
  pub proto_minor : ℤ
  pub async_read : ℤ
  pub max_write : ℤ
  pub max_readahead : ℤ
  pub capable : ℤ
  pub want : ℤ
  pub max_background : ℤ
  pub congestion_threshold : ℤ

pub record FuseFileInfo : Type 0 where
  pub flags : ℤ
  pub fh_old : ℤ
  pub writepage : ℤ
  pub direct_io : ℤ
  pub keep_cache : ℤ
  pub fh : ℤ
  pub lock_owner : ℤ

pub record StatInfo : Type 0 where
  pub st_dev : ℤ
  pub st_ino : ℤ
  pub st_mode : ℤ
  pub st_nlink : ℤ
  pub st_uid : ℤ
  pub st_gid : ℤ
  pub st_rdev : ℤ
  pub st_size : ℤ
  pub st_blksize : ℤ
  pub st_blocks : ℤ
  pub st_atime : ℤ
  pub st_mtime : ℤ
  pub st_ctime : ℤ

pub record StatvfsInfo : Type 0 where
  pub f_bsize : ℤ
  pub f_frsize : ℤ
  pub f_blocks : ℤ
  pub f_bfree : ℤ
  pub f_bavail : ℤ
  pub f_files : ℤ
  pub f_ffree : ℤ
  pub f_favail : ℤ
  pub f_fsid : ℤ
  pub f_flag : ℤ
  pub f_namemax : ℤ

pub record Utimbuf : Type 0 where
  pub actime : ℤ
  pub modtime : ℤ

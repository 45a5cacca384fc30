-- ===== src/Paths.antt =====
-- Repository paths and patches: `validate_rel_path`, `path_allowed` and `parse_patch_paths` of
-- scripts/engineering_worker/worker.py.
pub mod Posix
pub mod Relative
pub mod Allowed
pub mod Patch

-- ===== src/Tests.antt =====
-- Runs of the model at concrete inputs, and the theorems applied there.
mod Startup
mod Programs
mod Processor
mod Disk
mod Cache
mod Strings
mod Pages
mod Files
mod Calls
mod Spaces
mod Images
mod Console

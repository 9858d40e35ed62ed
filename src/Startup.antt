-- ===== src/Startup.antt =====
-- control-plane/app/config.py and what control-plane/app/main.py does with it before the first
-- request.
pub mod Config
pub mod Precedence
pub mod Process
pub mod Url

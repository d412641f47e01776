-- ===== src/App.antt =====
-- cs244b_project/src/app: the application beside Streamlet.
pub mod Interface
pub mod Application
pub mod Directory

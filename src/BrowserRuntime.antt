-- ===== src/BrowserRuntime.antt =====
-- browser_runtime.py: the settings of the local browser, and one operation in a browser that is
-- closed afterwards. Playwright, the file system and Python's floats are parameters.
pub mod Settings
pub mod Host
pub mod Run
pub mod Closing
pub mod Failures
pub mod Directory
pub mod Outside
mod Tests

-- ===== src/Tests.antt =====
-- Examples: the theorems at concrete inputs, and runs of the functions.
mod Codec
mod Session
mod Api
mod Console
mod Detail
mod ThemeCodec
mod Theme
mod Endpoints
mod Topic
mod Files
mod Pages
mod Admin
mod Account
mod Shell
mod Tabs

-- ===== src/Lib.antt =====
-- The browser client of Sky Panel, a panel for game servers: the TypeScript under web/src. The
-- client keeps a session, calls the panel's HTTP API with it, listens to the panel's WebSocket
-- topics, and shows pages on top of the two. What is modelled is the client's own logic: its state
-- and every handler that changes it, as functions on records. What a browser, a library or the
-- panel does is an argument of these functions, or a sequence of events that is chosen freely.
--
-- The parts, from the bottom up:
--
-- Base: what all files share. Strings are JavaScript strings that are compared whole, with "" the
-- one falsy one (`nonempty`, `truthy`, `or_text`); `Dict` is an object with string keys,
-- localStorage included; `Json` is a JSON value; ℤ stands for a number that may be negative;
-- `show` is `String(n)`.
--
-- Wire: the interfaces of web/src/types/api.ts, one record or enumeration each. `F` stands for the
-- fractional numbers.
--
-- Auth: the store of web/src/lib/authStore.ts. Every action returns an `Outcome`, since
-- `localStorage.setItem` can throw, and the new `State`, which has the storage beside the store's
-- fields. `Platform` is `JSON.stringify`, `JSON.parse` and the storage's readiness to accept a
-- write; `IsFaithful` says that the parser reads back what the printer wrote. Auth/Action runs any
-- action, Auth/Reload is about reloading the page, Auth/Impersonation about viewing as another
-- user.
--
-- Api: web/src/lib/api.ts. Api.antt has one request and what becomes of its response; Api/Client
-- has all calls of one tab as a state machine: a task per `apiRequest`, the one shared refresh
-- (`refreshPromise`), and the events that resume them. Api/Tasks, Api/Flight, Api/Settling,
-- Api/Headers and Api/Races are about it. It uses Auth for the session.
--
-- Endpoints: web/src/lib/endpoints.ts. Each API object is a data type of its calls and a function
-- `call` to what is passed to `apiRequest`; Endpoints/Access is about all of them, with the client
-- of Api.
--
-- Topic: web/src/lib/useTopic.ts, one subscription over a WebSocket as a state machine over the
-- browser's events, with Topic/Reconnecting and Topic/Backoff.
--
-- Console and Detail: the terminal of web/src/components/Console.tsx and the page
-- web/src/pages/ServerDetailPage.tsx that feeds it. Texts of the terminal's input are lists of
-- UTF-16 units. Detail/Window and Detail/Frozen are about the bounded buffers, Detail/Access about
-- tabs and buttons.
--
-- Theme: web/src/lib/theme.ts and web/src/lib/ThemeProvider.tsx, and in Theme/Builder the draft of
-- web/src/pages/ThemeBuilderPage.tsx with what its effects capture.
--
-- Files: web/src/components/server/FilesTab.tsx: paths and breadcrumbs, uploads, and the handlers
-- for one entry. Its requests are values of the calls in Endpoints/Files.
--
-- Servers, Startup: the list and the form of web/src/pages/ServersListPage.tsx (its order in
-- Servers/Sorting and Servers/Order, its requests in Servers/Requests), and the variables of
-- web/src/components/server/StartupTab.tsx, with its template of the command in Startup/Render and
-- Startup/Template.
--
-- Encoding: web/src/lib/base64.ts and web/src/lib/clipboard.ts.
--
-- Eggs, Login: the egg editor of web/src/components/admin/AdminEggsTab.tsx (its requests in
-- Eggs/Requests), web/src/pages/LoginPage.tsx and, in Login/Register,
-- web/src/pages/RegisterPage.tsx.
--
-- Banner: web/src/components/ImpersonationBanner.tsx and BroadcastBanner.tsx, with viewing as a
-- user from the first click to the last in Banner/ViewAs.
--
-- Shell: web/src/components/AppShell.tsx and Topbar.tsx, the frame that polls the user;
-- Shell/Polling is about whom it shows.
--
-- Account, Wallet, Reinstall: web/src/pages/AccountPage.tsx, web/src/pages/WalletPage.tsx with
-- web/src/pages/StorePage.tsx, and web/src/pages/ReinstallPage.tsx. Account/Held, Wallet/Balance
-- and Login/Session are about the session after their handlers, by Auth/Holding;
-- Reinstall/Progress is about what the page of a reinstallation shows.
--
-- Tabs: the tabs under web/src/components/server. Tabs/Modrinth has all installs under way as a
-- list of tasks, and Tabs/Modrinth/Pending is about them.
--
-- Admin: the tabs under web/src/components/admin: Admin/Servers with Admin/Servers/Selection,
-- Admin/Users with Admin/Users/Quota, and the forms over the instance's settings (Admin/Quotas,
-- Admin/Economy, Admin/Settings, Admin/Look), for nodes and codes (Admin/Nodes) and for ports
-- (Admin/Allocations).
--
-- Appearance, Toasts, Afk, Display: web/src/lib/appearance.ts with its provider and the gates
-- around the pages, web/src/lib/toast.tsx, the heartbeat of web/src/pages/AfkPage.tsx (Afk/Earning
-- has a whole visit), and formatting. Pages: the pages and tabs that show what the panel answers
-- (Pages/Leaderboard, Pages/Achievements, Pages/Analytics, Pages/Players).
--
-- Tests: runs at fixed inputs, and every theorem of the list below at concrete data. Tests/Codec
-- and Tests/ThemeCodec build a `Platform` whose printer and parser are concrete.
--
-- Fuel is used in Base/Decimal, where n + 1 exceeds the digits of n, and in Startup/Render, where
-- it is the length of the template, of which each step takes a unit at least. The other loops of
-- the source that are modelled go over a given list, and a run of a state machine is a list of
-- events of any length; both are structural recursion. Numbers of the source are natural numbers
-- where they are counts, sizes or times.
--
-- Not modelled: the Go services (panel-api), the installer and the public site (site), rendering
-- and styling, TanStack Query's cache but for the optimistic star of the list of servers and the
-- user that the frame polls (whether it keeps its object for an equal answer is a parameter),
-- timers' accuracy, and the remaining pages and tabs. A fetch that never settles is a task that
-- stays open.
pub mod Base
pub mod Pages
pub mod Encoding
pub mod Wire
pub mod Auth
pub mod Api
pub mod Endpoints
pub mod Topic
pub mod Console
pub mod Detail
pub mod Theme
pub mod Files
pub mod Servers
pub mod Startup
pub mod Appearance
pub mod Toasts
pub mod Afk
pub mod Display
pub mod Eggs
pub mod Login
pub mod Admin
pub mod Reinstall
pub mod Tabs
pub mod Wallet
pub mod Account
pub mod Banner
pub mod Shell
mod Tests
